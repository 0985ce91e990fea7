-- ===== src/Dsl/Loader/Headers/Laws.antt =====
-- What the headers of an accepted job satisfy.
use cron_manager.Base.{
  ◌≡◌, ◌≢◌, sym, true, false, some, Option-cases, inl, inr, List, [], ◌∷◌, ◌++◌, arith, any, All,
  All-append,
}
use mathlib.Core.List.{append-nil, append_assoc}
use mathlib.Core.Path.{subst}
use cron_manager.Base.Eq.{list_beq}
use cron_manager.Base.Names.{one_of_iff, IsOneOf}
use cron_manager.Base.Map.{Map}
use cron_manager.Base.Results.{ok, >>=-eq-ok}
use cron_manager.Base.Text.{Text}
use cron_manager.Dsl.{HttpHeader, HeaderSource, literal, env_var, JobKey}
use cron_manager.Dsl.Loader.Raw.{External}
use cron_manager.Dsl.Loader.Headers.{
  forbidden_headers, is_env_name, check_name, check_env_value, literal_headers, env_headers,
  build_http_headers,
}

module _ (x : External) where
  -- A usable value at load time.
  abbrev pub SourceIsSound : HeaderSource → Type 0
  SourceIsSound (literal v) = x.header_value_is_valid v ≡ true
  SourceIsSound (env_var var) =
      (v : Text) × (is_env_name var ≡ true)
      × (x.env var ≡ some v)
      × (v ≢ [])
      × (x.header_value_is_valid v ≡ true)

  abbrev pub HeaderIsSound : HttpHeader → Type 0
  HeaderIsSound h = (¬ IsOneOf forbidden_headers h.name) × SourceIsSound h.source

  -- A header from `headerEnvs` has a name that no header before it has.
  abbrev IsFresh : HeaderSource → Text → List HttpHeader → Type 0
  IsFresh (literal v) name before = Unit
  IsFresh (env_var var) name before = any (λ h. list_beq h.name name) before ≡ false

  abbrev pub AllFresh : List HttpHeader → List HttpHeader → Type 0
  AllFresh before [] = Unit
  AllFresh before (h ∷ hs) = IsFresh h.source h.name before × AllFresh (before ++ h ∷ []) hs

  module _ (source : Text) (key : JobKey) where
    check_name_ok :
        (name name' : Text)
        → check_name x source key name ≡ ok name'
        → ¬ IsOneOf forbidden_headers name'
    unfolding check_name
    check_name_ok name name' e = λ bad. ground (arith, (one_of_iff forbidden_headers name').1 bad)

    check_env_value_ok :
        (var name : Text)
        → check_env_value x source key var name ≡ ok tt
        → (v : Text) × (x.env var ≡ some v) × (v ≢ []) × (x.header_value_is_valid v ≡ true)
    unfolding check_env_value
    check_env_value_ok var name e = elim (Option-cases (x.env var)) [
      | inl missing ↦ absurd (ground arith)
      | inr (v, found) ↦ (v, found, λ blank. ground arith, ground arith)
    ]

    AllFresh-append :
        (before out : List HttpHeader) (h : HttpHeader)
        → AllFresh before out
        → IsFresh h.source h.name (before ++ out)
        → AllFresh before (out ++ h ∷ [])
    AllFresh-append before [] h a f = (subst (IsFresh h.source h.name) (append-nil before) f, tt)
    AllFresh-append before (g ∷ out) h a f = (
      a.0,
      AllFresh-append (before ++ g ∷ []) out h a.1
          (subst (IsFresh h.source h.name) (sym (append_assoc before (g ∷ []) out)) f),
    )

    -- The invariant of both loops.
    abbrev Good : List HttpHeader → Type 0
    Good out = All HeaderIsSound out × AllFresh [] out

    Good-push :
        (out : List HttpHeader) (h : HttpHeader)
        → Good out
        → HeaderIsSound h
        → IsFresh h.source h.name out
        → Good (out ++ h ∷ [])
    Good-push out h g s f =
        (All-append HeaderIsSound out (h ∷ []) g.0 (s, tt), AllFresh-append [] out h g.1 f)

    literal_headers_ok :
        (out : List HttpHeader) (m : Map Text Text) (result : List HttpHeader)
        → Good out
        → literal_headers x source key out m ≡ ok result
        → Good result
    unfolding literal_headers
    literal_headers_ok out [] result g e = subst Good (ground arith) g
    literal_headers_ok out ((name, value) ∷ rest) result g e =
        let (name', named, e') = >>=-eq-ok (check_name x source key name) _ e in
        let valid : x.header_value_is_valid value ≡ true = ground arith in
        let h : HttpHeader = record { name = name'; source = literal value } in
        literal_headers_ok (out ++ h ∷ []) rest result
          (Good-push out h g (check_name_ok name name' named, valid) tt) (ground arith)

    env_headers_ok :
        (out : List HttpHeader) (m : Map Text Text) (result : List HttpHeader)
        → Good out
        → env_headers x source key out m ≡ ok result
        → Good result
    unfolding env_headers
    env_headers_ok out [] result g e = subst Good (ground arith) g
    env_headers_ok out ((name, var) ∷ rest) result g e =
        let (name', named, e') = >>=-eq-ok (check_name x source key name) _ e in
        let fresh : any (λ h. list_beq h.name name') out ≡ false = ground arith in
        let env_named : is_env_name var ≡ true = ground arith in
        let checked : check_env_value x source key var name' ≡ ok tt = ground arith in
        let (v, found, filled, valid) = check_env_value_ok var name' checked in
        let h : HttpHeader = record { name = name'; source = env_var var } in
        env_headers_ok (out ++ h ∷ []) rest result
          (Good-push out h g (check_name_ok name name' named, (v, env_named, found, filled, valid))
            fresh)
          (ground arith)

    -- The headers of an accepted job: none is forbidden, every literal value is valid, every
    -- variable is well named and holds a valid value that is not empty, and no name from
    -- `headerEnvs` is one that a header before it has.
    pub build_http_headers_ok :
        (literals envs : Map Text Text) (out : List HttpHeader)
        → build_http_headers x source key literals envs ≡ ok out
        → All HeaderIsSound out × AllFresh [] out
    unfolding build_http_headers
    build_http_headers_ok literals envs out e =
        let (lits, made, e') = >>=-eq-ok (literal_headers x source key [] literals) _ e in
        env_headers_ok lits envs out (literal_headers_ok [] literals lits (tt, tt) made) e'
