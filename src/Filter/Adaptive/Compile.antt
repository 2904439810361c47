-- ===== src/Filter/Adaptive/Compile.antt =====
-- The compilation of adaptive matchers (internal/filter/adaptive.go): the check of a configuration,
-- and the state that a matcher starts from. The numbers that Go has as floats are of a type `F`, with
-- the two range tests on them as parameters.
use tagstrak.Common.{
  ℕ, zero, suc, ◌≤◌, ◌<◌, ◌≡◌, refl, sym, ap, ◌∙◌, arith, Bool, true, false, ◌&&◌, ◌||◌, not, List,
  [], ◌∷◌, Bytes, length, All, Option, none, some, Result, ok, err, ok-injective, ltb, leb, ◌==◌,
  if◌then◌else◌, ◌>>=◌, ◌>>◌, subst,
}
use tagstrak.Filter.Subscription.{Subscription, Error, has_id, validate}
use tagstrak.Filter.Adaptive.{Matcher, Controller, Adaptive}
use tagstrak.Filter.Adaptive.Agrees.{IsController, IsAdaptive}

-- `ErrAdaptiveConfig`, by the check that fails; an error of the subscriptions; one of a candidate.
pub data CompileError : Type 0 where
  bad_candidates bad_shadow bad_sampling bad_warmup bad_window bad_hysteresis bad_budget :
      CompileError
  bad_subscriptions bad_candidate : Error → CompileError

-- A compiler that is nil is `none`.
pub record Candidate : Type 0 where
  pub name : Bytes
  pub compile : Option (List Subscription → Result Error Matcher)

-- `AdaptiveConfig`; a negative cooldown, which is refused, is not represented.
pub record AdaptiveConfig (F : Type 0) : Type 0 where
  pub candidates : List Candidate
  pub sample_every : ℕ
  pub warmup : ℕ
  pub window : ℕ
  pub hysteresis : F
  pub cooldown : ℕ
  pub overhead_budget : F
  pub full_shadow : Bool
  pub experimental : Bool

abbrev has_compiler : Candidate → Bool
has_compiler c = elim c.compile [ none ↦ false | some f ↦ true ]

-- The loop over the candidates' names and compilers
names_valid : List Candidate → List Bytes → Bool
unfolding has_id
names_valid [] seen = true
names_valid (c ∷ cs) seen =
    let rest = names_valid cs (c.name ∷ seen) in
    if length c.name == 0 || has_id c.name seen || not (has_compiler c) then false else rest

abbrev is_observations : ℕ → Bool
is_observations n = leb 1 n && leb n 1000

replicate : {A : Type 0} → ℕ → A → List A
replicate zero x = []
replicate (suc n) x = x ∷ replicate n x

module _ {F : Type 0} (is_hysteresis : F → Bool) (is_budget : F → Bool) where
  -- `AdaptiveConfig.validate`
  validate_config : AdaptiveConfig F → Result CompileError (Unit {0})
  unfolding names_valid
  validate_config c =
      if ltb (length c.candidates) 2 || ltb 4 (length c.candidates)
      then err bad_candidates
      else if not (names_valid c.candidates [])
      then err bad_candidates
      else if c.full_shadow && not c.experimental
      then err bad_shadow
      else if not c.full_shadow && ltb c.sample_every 10
      then err bad_sampling
      else if not (is_observations c.warmup)
      then err bad_warmup
      else if not (is_observations c.window)
      then err bad_window
      else if not (is_hysteresis c.hysteresis)
      then err bad_hysteresis
      else if not c.full_shadow && not (is_budget c.overhead_budget)
      then err bad_budget
      else ok tt

  -- `newController`
  new_controller : ℕ → AdaptiveConfig F → Controller
  unfolding replicate
  new_controller n cfg = record {
    warmup = cfg.warmup;
    cooldown = cfg.cooldown;
    window = cfg.window;
    selected = 0;
    switches = 0;
    since_switch = 0;
    counts = replicate n 0;
    rings = replicate n [];
    next = replicate n 0;
  }

  -- The loop of `CompileAdaptive`; a nil compiler does not pass the check before it.
  compile_one :
      List Subscription
      → Option (List Subscription → Result Error Matcher)
      → Result CompileError Matcher
  compile_one subs none = err bad_candidates
  compile_one subs (some f) = elim (f subs) [ ok m ↦ ok m | err e ↦ err (bad_candidate e) ]

  compile_candidates : List Subscription → List Candidate → Result CompileError (List Matcher)
  unfolding compile_one
  compile_candidates subs [] = ok []
  compile_candidates subs (c ∷ cs) = do
    m ← compile_one subs c.compile
    ms ← compile_candidates subs cs
    ok (m ∷ ms)

  abbrev started : AdaptiveConfig F → List Matcher → Adaptive
  started cfg ms = record {
    matchers = ms;
    every = cfg.sample_every;
    full = cfg.full_shadow;
    selected = 0;
    calls = 0;
    ctl = new_controller (length cfg.candidates) cfg;
    next_shadow = 0;
    scratch = [];
    sampled = 0;
    skipped = 0;
    shadow_time = 0;
    ticks = 0;
  }

  abbrev checked_subscriptions : Result Error (Unit {0}) → Result CompileError (Unit {0})
  checked_subscriptions (ok u) = ok tt
  checked_subscriptions (err e) = err (bad_subscriptions e)

  -- `CompileAdaptive`
  unfoldable pub compile_adaptive :
      List Subscription → AdaptiveConfig F → Result CompileError Adaptive
  unfolding validate validate_config new_controller compile_candidates
  compile_adaptive subs cfg = do
    checked_subscriptions (validate subs)
    validate_config cfg
    ms ← compile_candidates subs cfg.candidates
    ok (started cfg ms)

length-replicate : {A : Type 0} (n : ℕ) (x : A) → length (replicate n x) ≡ n
unfolding replicate
length-replicate zero x = refl
length-replicate (suc n) x = ap suc (length-replicate n x)

All-replicate : {A : Type 0} (P : A → Type 0) (n : ℕ) (x : A) → P x → All P (replicate n x)
unfolding replicate
All-replicate P zero x h = tt
All-replicate P (suc n) x h = (h, All-replicate P n x h)

step_ok :
    {A B : Type 0} (r : Result CompileError A) (f : A → Result CompileError B) {b : B}
    → (r >>= f) ≡ ok b
    → (a : A) × (r ≡ ok a) × (f a ≡ ok b)
step_ok (ok a) f e = (a, refl, e)
step_ok (err x) f e = cc

next_ok :
    {B : Type 0} (r : Result CompileError (Unit {0})) (s : Result CompileError B) {b : B}
    → (r >> s) ≡ ok b
    → (r ≡ ok tt) × (s ≡ ok b)
next_ok (ok tt) s e = (refl, e)
next_ok (err x) s e = cc

module _ {F : Type 0} (is_hysteresis : F → Bool) (is_budget : F → Bool) where
  length-compile_candidates :
      (subs : List Subscription) (cs : List Candidate) {ms : List Matcher}
      → compile_candidates is_hysteresis is_budget subs cs ≡ ok ms
      → length ms ≡ length cs
  unfolding compile_candidates
  length-compile_candidates subs [] e = ap length (sym (ok-injective e))
  length-compile_candidates subs (c ∷ cs) e =
      let (m, first, e1) = step_ok (compile_one is_hysteresis is_budget subs c.compile) _ e in
      let (ms, rest, e2) = step_ok (compile_candidates is_hysteresis is_budget subs cs) _ e1 in
      sym (ap length (ok-injective e2)) ∙ ap suc (length-compile_candidates subs cs rest)

  new_controller-IsController :
      (n : ℕ) (cfg : AdaptiveConfig F)
      → 0 < n
      → IsController n 0 (new_controller is_hysteresis is_budget n cfg)
  unfolding new_controller
  new_controller-IsController n cfg positive = record {
    selects = refl;
    there = positive;
    counted = length-replicate n 0;
    rings = All-replicate (λ r. length r ≤ cfg.window) n [] (omega arith);
  }

  enough_candidates :
      (cfg : AdaptiveConfig F)
      → validate_config is_hysteresis is_budget cfg ≡ ok tt
      → (2 ≤ length cfg.candidates) × (length cfg.candidates ≤ 4)
  unfolding validate_config
  enough_candidates cfg e = (ground arith, ground arith)

  -- A compiled adaptive matcher has between two and four candidates, as many as its configuration,
  -- and starts in a well-formed state with the first one selected.
  pub compile_adaptive-IsAdaptive :
      (subs : List Subscription) (cfg : AdaptiveConfig F) {a : Adaptive}
      → compile_adaptive is_hysteresis is_budget subs cfg ≡ ok a
      → IsAdaptive a.matchers 0 a
        × (length a.matchers ≡ length cfg.candidates)
        × (2 ≤ length a.matchers)
        × (length a.matchers ≤ 4)
  unfolding compile_adaptive
  compile_adaptive-IsAdaptive subs cfg {a} e =
      let (checked, e1) =
        next_ok (checked_subscriptions is_hysteresis is_budget (validate subs)) _ e in
      let (fine, e2) = next_ok (validate_config is_hysteresis is_budget cfg) _ e1 in
      let (ms, compiled, e3) =
        step_ok (compile_candidates is_hysteresis is_budget subs cfg.candidates) _ e2 in
      let size : length ms ≡ length cfg.candidates =
        length-compile_candidates subs cfg.candidates compiled in
      let (low, high) = enough_candidates cfg fine in
      let many : 2 ≤ length ms = omega arith in
      let few : length ms ≤ 4 = omega arith in
      let started_well : IsController (length ms) 0
          (new_controller is_hysteresis is_budget (length cfg.candidates) cfg) =
        rw (← size) (new_controller-IsController (length ms) cfg (omega arith)) in
      subst
        (λ b.
          IsAdaptive b.matchers 0 b
          × (length b.matchers ≡ length cfg.candidates)
          × (2 ≤ length b.matchers)
          × (length b.matchers ≤ 4))
        (ok-injective e3)
        (record { matchers = refl; mirrors = refl; controls = started_well }, size, many, few)
