-- ===== src/Main/Orders.antt =====
-- Which command lines are accepted, and that their order does not matter.
use mathlib.Core.List.{Permᴰ}
use rust_xpra.Prelude.{
  ◌≡◌, refl, sym, ap, ap₂, ◌∙◌, Bool, true, false, ◌&&◌, ◌||◌, Bool-cases, &&_split, inl, inr,
  Option, none, some, List, [], ◌∷◌, ◌++◌, if◌then◌else◌, arith, Bytes, ok, drop, append-nil,
}
use rust_xpra.Main.{
  Options, is_help, is_version, add_target, parse_arg, parse_from, parse_args, any_arg,
  default_options,
}
use rust_xpra.Main.Args.{
  is_insecure, is_option, is_dashed, targets, all_options, to_list, dashed, or_false, or_true,
  not_both, IsAccepted, parse_args-IsAccepted,
}

to_list_injective : (o p : Option Bytes) → to_list o ≡ to_list p → o ≡ p
to_list_injective none none h = refl
to_list_injective none (some a) h = cc h
to_list_injective (some a) none h = cc h
to_list_injective (some a) (some b) h = cc h

no_more :
    (first t : Option Bytes) (arg : Bytes) (rest : List Bytes)
    → to_list first ++ arg ∷ rest ≡ to_list t
    → first ≡ none
no_more none t arg rest h = refl
no_more (some a) none arg rest h = cc h
no_more (some a) (some b) arg rest h = cc h

-- What an argument does, when it is an option that there is, or no option and the first target.
parse_option :
    (o : Options) (arg : Bytes)
    → is_option arg ≡ true
    → parse_arg o arg ≡ ok (record o { ssl_insecure = o.ssl_insecure || is_insecure arg })
unfolding parse_arg
parse_option o arg h = elim (Bool-cases (is_help arg || is_version arg)) [
  | inl e ↦
      rw (e, not_both arg e)
        (ap (λ b. ok (record o { ssl_insecure = b })) (or_false o.ssl_insecure))
  | inr e ↦
      let i : is_insecure arg ≡ true = ground arith in
      rw (e, i) (ap (λ b. ok (record o { ssl_insecure = b })) (or_true o.ssl_insecure))
]

not_insecure : (arg : Bytes) → is_dashed arg ≡ false → is_insecure arg ≡ false
not_insecure arg h = elim (Bool-cases (is_insecure arg)) [
  | inr f ↦ f
  | inl f ↦ cc (sym (dashed arg (ground arith)) ∙ h)
]

parse_target_arg :
    (o : Options) (arg : Bytes)
    → is_dashed arg ≡ false
    → o.target ≡ none
    → parse_arg o arg ≡ ok (record o { target = some arg })
unfolding parse_arg add_target
parse_target_arg o arg h e =
    let k : (is_help arg || is_version arg) ≡ false =
      elim (Bool-cases (is_help arg || is_version arg)) [
        | inr f ↦ f
        | inl f ↦ cc (sym (dashed arg (ground arith)) ∙ h)
      ] in
    rw (k, not_insecure arg h, h, e) refl

or_assoc : (a b c : Bool) → ((a || b) || c) ≡ (a || (b || c))
or_assoc true b c = refl
or_assoc false b c = refl

parse_from-cons :
    (o next : Options) (arg : Bytes) (args : List Bytes)
    → parse_arg o arg ≡ ok next
    → parse_from o (arg ∷ args) ≡ parse_from next args
unfolding parse_from
parse_from-cons o next arg args e = rw (e, parse_from) refl

parse_from-ok :
    (args : List Bytes) (o : Options) (t : Option Bytes)
    → all_options args ≡ true
    → to_list o.target ++ targets args ≡ to_list t
    → parse_from o args
      ≡ ok (record { target = t; ssl_insecure = o.ssl_insecure || any_arg is_insecure args })
unfolding parse_from any_arg
parse_from-ok [] o t k e =
    let same : o.target ≡ t =
      to_list_injective o.target t (sym (append-nil (to_list o.target)) ∙ e) in
    ap (λ u. ok (record { target = u; ssl_insecure = o.ssl_insecure })) same
    ∙ ap (λ b. ok (record { target = t; ssl_insecure = b })) (or_false o.ssl_insecure)
parse_from-ok (arg ∷ args) o t k e = elim (Bool-cases (is_dashed arg)) [
  | inl d ↦
      let (known, rest) = &&_split (is_option arg) (all_options args) (rw d at k) in
      parse_from-cons o _ arg args (parse_option o arg known)
      ∙ parse_from-ok args (record o { ssl_insecure = o.ssl_insecure || is_insecure arg }) t rest
          (rw d at e)
      ∙ ap (λ b. ok (record { target = t; ssl_insecure = b }))
          (or_assoc o.ssl_insecure (is_insecure arg) (any_arg is_insecure args))
  | inr d ↦
      let none_yet = no_more o.target t arg (targets args) (rw d at e) in
      let safe : is_insecure arg ≡ false = not_insecure arg d in
      parse_from-cons o _ arg args (parse_target_arg o arg d none_yet)
      ∙ parse_from-ok args (record o { target = some arg }) t (rw d at k)
          (ap (λ u. to_list u ++ arg ∷ targets args) (sym none_yet) ∙ rw d at e)
      ∙ ap
          (λ b. ok (record {
            target = t;
            ssl_insecure = o.ssl_insecure || (b || any_arg is_insecure args);
          }))
          (sym safe)
]

-- A command line is accepted when it has only options that there are among the arguments with a dash,
-- and at most one argument without.
pub parse_args_ok :
    (args : List Bytes) (o : Options) → IsAccepted (drop 1 args) o → parse_args args ≡ ok o
unfolding parse_args
parse_args_ok args o a =
    parse_from-ok (drop 1 args) default_options o.target a.only_options a.only_target
    ∙ ap (λ b. ok (record { target = o.target; ssl_insecure = b })) (sym a.insecure_iff)

all_options-swap :
    (a b : Bytes) (l : List Bytes) → all_options (a ∷ b ∷ l) ≡ all_options (b ∷ a ∷ l)
all_options-swap a b l =
    swapped (is_dashed a) (is_dashed b) (is_option a) (is_option b) (all_options l)
  where
    swapped :
        (p q c d r : Bool)
        → (if p then c && (if q then d && r else r) else (if q then d && r else r))
          ≡ (if q then d && (if p then c && r else r) else (if p then c && r else r))
    swapped p q c d r = ground arith

all_options_permuted : {l m : List Bytes} → Permᴰ l m → all_options l ≡ all_options m
all_options_permuted Permᴰ.nil = refl
all_options_permuted (Permᴰ.cons {a} {b} {l₁} {l₂} e p) =
    ap (λ x. all_options (x ∷ l₁)) e
    ∙ ap (λ r. if is_dashed b then is_option b && r else r) (all_options_permuted p)
all_options_permuted (Permᴰ.swap {a} {b} {a'} {b'} {l} e f) =
    all_options-swap a b l ∙ ap₂ (λ x y. all_options (x ∷ y ∷ l)) f e
all_options_permuted (Permᴰ.trans p q) = all_options_permuted p ∙ all_options_permuted q

any_arg_permuted : {l m : List Bytes} → Permᴰ l m → any_arg is_insecure l ≡ any_arg is_insecure m
unfolding any_arg
any_arg_permuted Permᴰ.nil = refl
any_arg_permuted (Permᴰ.cons e p) = ap₂ (λ x r. is_insecure x || r) e (any_arg_permuted p)
any_arg_permuted (Permᴰ.swap {a} {b} {a'} {b'} {l} e f) =
    or_swap (is_insecure a) (is_insecure b) (any_arg is_insecure l)
    ∙ ap₂ (λ x y. is_insecure x || (is_insecure y || any_arg is_insecure l)) f e
  where
    or_swap : (p q r : Bool) → (p || (q || r)) ≡ (q || (p || r))
    or_swap p q r = ground arith
any_arg_permuted (Permᴰ.trans p q) = any_arg_permuted p ∙ any_arg_permuted q

swapped_one :
    (p q : Bool) (a b : Bytes) (r : List Bytes) (t : Option Bytes)
    → (if p then (if q then r else b ∷ r) else a ∷ (if q then r else b ∷ r)) ≡ to_list t
    → (if q then (if p then r else a ∷ r) else b ∷ (if p then r else a ∷ r)) ≡ to_list t
swapped_one true true a b r t h = h
swapped_one true false a b r t h = h
swapped_one false true a b r t h = h
swapped_one false false a b r none h = cc h
swapped_one false false a b r (some x) h = cc h

after_one :
    (p : Bool) (a : Bytes) (r s : List Bytes) (t : Option Bytes)
    → ((u : Option Bytes) → r ≡ to_list u → s ≡ to_list u)
    → (if p then r else a ∷ r) ≡ to_list t
    → (if p then s else a ∷ s) ≡ to_list t
after_one true a r s t f h = f t h
after_one false a r s none f h = cc h
after_one false a r s (some x) f h = ap (λ (l : List Bytes). a ∷ l) (f none (ap (drop 1) h)) ∙ cc h

-- The arguments without a dash are none or one, and then it is the same after a permutation.
only_one :
    {l m : List Bytes} (t : Option Bytes)
    → Permᴰ l m
    → targets l ≡ to_list t
    → targets m ≡ to_list t
only_one t Permᴰ.nil h = h
only_one t (Permᴰ.trans p q) h = only_one t q (only_one t p h)
only_one t (Permᴰ.swap {a} {b} {a'} {b'} {l} e f) h =
    ap₂ (λ x y. targets (x ∷ y ∷ l)) (sym f) (sym e)
    ∙ swapped_one (is_dashed a) (is_dashed b) a b (targets l) t h
only_one t (Permᴰ.cons {a} {b} {l₁} {l₂} e p) h =
    ap (λ x. targets (x ∷ l₂)) (sym e)
    ∙ after_one (is_dashed a) a (targets l₁) (targets l₂) t (λ u. only_one u p) h

-- A command line is accepted with the same result in any order of its arguments.
pub parse_args_any_order :
    (program : Bytes) (l m : List Bytes) (o : Options)
    → Permᴰ l m
    → parse_args (program ∷ l) ≡ ok o
    → parse_args (program ∷ m) ≡ ok o
parse_args_any_order program l m o p h =
    let a = parse_args-IsAccepted (program ∷ l) o h in
    parse_args_ok (program ∷ m) o (record {
      only_options = sym (all_options_permuted p) ∙ a.only_options;
      only_target = only_one o.target p a.only_target;
      insecure_iff = a.insecure_iff ∙ any_arg_permuted p;
    })
