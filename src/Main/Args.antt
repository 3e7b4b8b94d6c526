-- ===== src/Main/Args.antt =====
-- What the command line says, in any order.
use rust_xpra.Prelude.{
  ◌≡◌, refl, sym, ap, ◌∙◌, subst, Bool, true, false, ◌&&◌, ◌||◌, Bool-cases, inl, inr, Option, none,
  some, List, [], ◌∷◌, ◌++◌, append_assoc, if◌then◌else◌, arith, Bytes, codes, bytes_eq,
  bytes_eq→eq, starts_with, Result, ok, err, drop,
}
use rust_xpra.Main.{
  Options, ArgsError, unrecognized_option, is_help, is_version, add_target, parse_arg, parse_from,
  parse_args, any_arg, default_options,
}

abbrev pub is_insecure : Bytes → Bool
is_insecure arg = bytes_eq arg (codes "--ssl-insecure")

-- An option that there is.
abbrev pub is_option : Bytes → Bool
is_option arg = is_help arg || is_version arg || is_insecure arg

abbrev pub is_dashed : Bytes → Bool
is_dashed arg = starts_with arg (codes "-")

-- The arguments that are no options.
abbrev pub targets : List Bytes → List Bytes
targets [] = []
targets (arg ∷ args) = let rest = targets args in if is_dashed arg then rest else arg ∷ rest

-- Every argument with a dash is an option that there is.
abbrev pub all_options : List Bytes → Bool
all_options [] = true
all_options (arg ∷ args) =
    let rest = all_options args in if is_dashed arg then is_option arg && rest else rest

abbrev pub to_list : Option Bytes → List Bytes
to_list none = []
to_list (some a) = a ∷ []

pub dashed : (arg : Bytes) → is_option arg ≡ true → is_dashed arg ≡ true
dashed [] h = cc h
dashed (c ∷ arg) h = ground arith

abbrev ok_or : Options → Result ArgsError Options → Options
ok_or o (ok r) = r
ok_or o (err e) = o

ok_injective : (o r : Options) → ◌≡◌ {A = Result ArgsError Options} (ok o) (ok r) → o ≡ r
ok_injective o r h = ap (ok_or o) h

-- The choice of `parse_arg`, over its tests.
chosen : Options → Bytes → Bool → Bool → Bool → Result ArgsError Options
chosen o arg known insecure dash =
    if known
    then ok o
    else if insecure
    then ok (record o { ssl_insecure = true })
    else if dash
    then err (unrecognized_option arg)
    else add_target o o.target arg

-- What one argument gives.
record Adds (o : Options) (arg : Bytes) (known unsafe dash : Bool) (r : Options) : Type 0 where
  fits : (if dash then known || unsafe else true) ≡ true
  target : to_list r.target ≡ to_list o.target ++ (if dash then [] else arg ∷ [])
  insecure : r.ssl_insecure ≡ (o.ssl_insecure || unsafe)

pub to_list-append_nil : (o : Option Bytes) → to_list o ≡ to_list o ++ []
to_list-append_nil none = refl
to_list-append_nil (some a) = refl

pub or_false : (b : Bool) → b ≡ (b || false)
or_false true = refl
or_false false = refl

pub or_true : (b : Bool) → true ≡ (b || true)
or_true true = refl
or_true false = refl

add_target-Adds :
    (o : Options) (first : Option Bytes) (arg : Bytes) (r : Options)
    → o.target ≡ first
    → add_target o first arg ≡ ok r
    → Adds o arg false false false r
unfolding add_target
add_target-Adds o (some t) arg r e h = cc h
add_target-Adds o none arg r e h =
    let same : record o { target = some arg } ≡ r = ok_injective _ r h in
    record {
      fits = refl;
      target =
          ap (λ (q : Options). to_list q.target) (sym same)
          ∙ ap (λ l. to_list l ++ (arg ∷ [])) (sym e);
      insecure = ap (λ (q : Options). q.ssl_insecure) (sym same) ∙ or_false o.ssl_insecure;
    }

chosen-Adds :
    (o : Options) (arg : Bytes) (known insecure dash : Bool) (r : Options)
    → (known || insecure ≡ true → dash ≡ true)
    → (known ≡ true → insecure ≡ false)
    → chosen o arg known insecure dash ≡ ok r
    → Adds o arg known insecure dash r
unfolding chosen
chosen-Adds o arg true true dash r f g h = cc (g refl)
chosen-Adds o arg true false false r f g h = cc (f refl)
chosen-Adds o arg true false true r f g h =
    let same : o ≡ r = ok_injective o r h in
    record {
      fits = refl;
      target = ap (λ (q : Options). to_list q.target) (sym same) ∙ to_list-append_nil o.target;
      insecure = ap (λ (q : Options). q.ssl_insecure) (sym same) ∙ or_false o.ssl_insecure;
    }
chosen-Adds o arg false true false r f g h = cc (f refl)
chosen-Adds o arg false true true r f g h =
    let same : record o { ssl_insecure = true } ≡ r = ok_injective _ r h in
    record {
      fits = refl;
      target = ap (λ (q : Options). to_list q.target) (sym same) ∙ to_list-append_nil o.target;
      insecure = ap (λ (q : Options). q.ssl_insecure) (sym same) ∙ or_true o.ssl_insecure;
    }
chosen-Adds o arg false false true r f g h = cc h
chosen-Adds o arg false false false r f g h = add_target-Adds o o.target arg r refl h

pub not_both : (arg : Bytes) → (is_help arg || is_version arg) ≡ true → is_insecure arg ≡ false
not_both arg h = elim (Bool-cases (is_insecure arg)) [
  | inr e ↦ e
  | inl e ↦ cc (subst (λ a. (is_help a || is_version a) ≡ true) (bytes_eq→eq arg _ e) h)
]

option_split :
    (arg : Bytes)
    → ((is_help arg || is_version arg) || is_insecure arg) ≡ true
    → is_option arg ≡ true
option_split arg h = ground arith

parse_arg-Adds :
    (o : Options) (arg : Bytes) (r : Options)
    → parse_arg o arg ≡ ok r
    → Adds o arg (is_help arg || is_version arg) (is_insecure arg) (is_dashed arg) r
unfolding parse_arg chosen
parse_arg-Adds o arg r h =
    chosen-Adds o arg (is_help arg || is_version arg) (is_insecure arg) (is_dashed arg) r
      (λ e. dashed arg (option_split arg e)) (not_both arg) h

-- What the arguments `args`, behind those that made the options `o`, give.
record Gives (o : Options) (args : List Bytes) (r : Options) : Type 0 where
  known : all_options args ≡ true
  target : to_list r.target ≡ to_list o.target ++ targets args
  insecure : r.ssl_insecure ≡ (o.ssl_insecure || any_arg is_insecure args)

Gives-cons :
    (o next r : Options) (arg : Bytes) (args : List Bytes)
    → Adds o arg (is_help arg || is_version arg) (is_insecure arg) (is_dashed arg) next
    → Gives next args r
    → Gives o (arg ∷ args) r
unfolding any_arg
Gives-cons o next r arg args a g = record {
  known = ground (arith, a.fits, g.known);
  target = g.target ∙ ap (λ (l : List Bytes). l ++ targets args) a.target ∙ regroup;
  insecure = ground (arith, a.insecure, g.insecure);
}
  where
    regroup :
        (to_list o.target ++ (if is_dashed arg then [] else arg ∷ [])) ++ targets args
        ≡ to_list o.target ++ targets (arg ∷ args)
    regroup = elim (Bool-cases (is_dashed arg)) [
      | inl e ↦ rw (e, append_assoc (to_list o.target) [] (targets args)) refl
      | inr e ↦ rw (e, append_assoc (to_list o.target) (arg ∷ []) (targets args)) refl
    ]

parse_from-Gives : (args : List Bytes) (o r : Options) → parse_from o args ≡ ok r → Gives o args r
unfolding parse_from any_arg
parse_from-Gives [] o r h =
    let same : o ≡ r = ok_injective o r h in
    record {
      known = refl;
      target = ap (λ (q : Options). to_list q.target) (sym same) ∙ to_list-append_nil o.target;
      insecure = ap (λ (q : Options). q.ssl_insecure) (sym same) ∙ or_false o.ssl_insecure;
    }
parse_from-Gives (arg ∷ args) o r h =
    behind (parse_arg o arg) refl h (λ next. parse_from-Gives args next r)
  where
    behind :
        (x : Result ArgsError Options)
        → parse_arg o arg ≡ x
        → elim x [ ok next ↦ parse_from next args | err e ↦ err e ] ≡ ok r
        → ((next : Options) → parse_from next args ≡ ok r → Gives next args r)
        → Gives o (arg ∷ args) r
    behind (ok next) e k f = Gives-cons o next r arg args (parse_arg-Adds o arg next e) (f next k)
    behind (err x) e k f = cc k

-- What an accepted command line says.
pub record IsAccepted (args : List Bytes) (o : Options) : Type 0 where
  pub only_options : all_options args ≡ true
  pub only_target : targets args ≡ to_list o.target
  pub insecure_iff : o.ssl_insecure ≡ any_arg is_insecure args

-- A command line that is accepted has only options that there are among the arguments with a dash, the
-- one argument without, if there is one, is the target, and certificates are verified unless
-- `--ssl-insecure` stands somewhere.
pub parse_args-IsAccepted :
    (args : List Bytes) (o : Options) → parse_args args ≡ ok o → IsAccepted (drop 1 args) o
unfolding parse_args
parse_args-IsAccepted args o h =
    let g = parse_from-Gives (drop 1 args) default_options o h in
    record { only_options = g.known; only_target = sym g.target; insecure_iff = g.insecure }
