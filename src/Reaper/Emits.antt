-- ===== src/Reaper/Emits.antt =====
-- What an action does to the machine is what it records: rules for the events it adds.
use ai_cli_utils.Prelude.{
  ◌≡◌, refl, sym, ◌∙◌, ap, Bool, true, false, List, [], ◌∷◌, ◌++◌, All, if◌then◌else◌, arith,
}
use mathlib.Core.List.{append_assoc}
use ai_cli_utils.Reaper.Types.{Attempt, returned, raised}
use ai_cli_utils.Reaper.Exec.{
  Event, State, Exec, pure, call, attempt, reraise, emit, step_world, ◌>>=◌, continue,
}

-- `after` has the events of `before`, and on top of them only events with `P`
pub record Adds {W : Type 0} (P : Event → Type 0) (before after : State W) : Type 0 where
  pub fresh : List Event
  pub grows : after.events ≡ fresh ++ before.events
  pub each : All P fresh

All-append : (P : Event → Type 0) (xs ys : List Event) → All P xs → All P ys → All P (xs ++ ys)
All-append P [] ys hx hy = hy
All-append P (x ∷ xs) ys hx hy = (hx.0, All-append P xs ys hx.1 hy)

module _ {W : Type 0} (P : Event → Type 0) where
  pub Adds-refl : (s t : State W) → t.events ≡ s.events → Adds P s t
  Adds-refl s t e = record { fresh = []; grows = e; each = tt }

  pub Adds-trans : (s t u : State W) → Adds P s t → Adds P t u → Adds P s u
  Adds-trans s t u a b = record {
    fresh = b.fresh ++ a.fresh;
    grows =
        b.grows ∙ ap (λ es. b.fresh ++ es) a.grows ∙ sym (append_assoc b.fresh a.fresh s.events);
    each = All-append P b.fresh a.fresh b.each a.each;
  }

module _ {W A : Type 0} (P : Event → Type 0) where
  -- run from `s`, whether it returns or raises, the action adds events with `P` only
  pub record Emits (m : Exec W A) (s : State W) : Type 0 where
    pub at : Adds P s (m s).1

  pub Emits-pure : (a : A) (s : State W) → Emits (pure a) s
  unfolding pure
  Emits-pure a s = record { at = Adds-refl P s s refl }

  pub Emits-reraise : (r : Attempt A) (s : State W) → Emits (reraise r) s
  unfolding reraise
  Emits-reraise r s = record { at = Adds-refl P s s refl }

  pub Emits-call : (f : W → Attempt A × W) (s : State W) → Emits (call f) s
  unfolding call
  Emits-call f s = record { at = Adds-refl P s _ refl }

  pub Emits-if :
      (b : Bool) (m k : Exec W A) (s : State W)
      → (b ≡ true → Emits m s)
      → (b ≡ false → Emits k s)
      → Emits (if b then m else k) s
  Emits-if true m k s hm hk = hm refl
  Emits-if false m k s hm hk = hk refl

module _ {W : Type 0} (P : Event → Type 0) where
  pub Emits-attempt :
      {A : Type 0} (m : Exec W A) (s : State W) → Emits P m s → Emits P (attempt m) s
  unfolding attempt
  Emits-attempt m s h = record { at = h.at }

  pub Emits-emit : (e : Event) (s : State W) → P e → Emits P (emit e) s
  unfolding emit
  Emits-emit e s h = record { at = record { fresh = e ∷ []; grows = refl; each = (h, tt) } }

  pub Emits-step_world : (f : W → W) (s : State W) → Emits P (step_world f) s
  unfolding step_world
  Emits-step_world f s = record { at = Adds-refl P s _ refl }

module _ {W A B : Type 0} (P : Event → Type 0) where
  -- the rest may use what the first part returned, and from which state
  pub Emits-bind :
      (m : Exec W A) (f : A → Exec W B) (s : State W)
      → Emits P m s
      → ((a : A) (t : State W) → m s ≡ (returned a, t) → Emits P (f a) t)
      → Emits P (m >>= f) s
  unfolding ◌>>=◌
  Emits-bind m f s hm hf = go (m s).0 (m s).1 refl hm.at
    where
      go : (r : Attempt A) (t : State W) → m s ≡ (r, t) → Adds P s t → Emits P (m >>= f) s
      go (returned a) t e h = record {
        at = rw (e, ◌>>=◌) (Adds-trans P s t (f a t).1 h (hf a t e).at);
      }
      go raised t e h = record { at = rw (e, ◌>>=◌) h }

-- What a run that returned says of its parts.
module _ {W A B : Type 0} where
  pub >>=-returned :
      (m : Exec W A) (f : A → Exec W B) (s : State W) {u : State W} {b : B}
      → (m >>= f) s ≡ (returned b, u)
      → (a : A) × (t : State W) × (m s ≡ (returned a, t)) × (f a t ≡ (returned b, u))
  unfolding ◌>>=◌
  >>=-returned m f s {u} {b} h = go (m s).0 (m s).1 refl
    where
      go :
          (r : Attempt A) (t : State W)
          → m s ≡ (r, t)
          → (a : A) × (t : State W) × (m s ≡ (returned a, t)) × (f a t ≡ (returned b, u))
      go (returned a) t e = (a, t, e, sym (ap (λ p. continue p f) e) ∙ h)
      go raised t e = cc (h, ap (λ p. continue p f) e)

  pub >>=-eq :
      (m : Exec W A) (f : A → Exec W B) (s : State W) {a : A} {t : State W}
      → m s ≡ (returned a, t)
      → (m >>= f) s ≡ f a t
  unfolding ◌>>=◌
  >>=-eq m f s e = ap (λ p. continue p f) e

module _ {W A : Type 0} where
  pub attempt-eq : (m : Exec W A) (s : State W) → attempt m s ≡ (returned (m s).0, (m s).1)
  unfolding attempt
  attempt-eq m s = refl

  pub pure-eq : (a : A) (s : State W) → pure a s ≡ (returned a, s)
  unfolding pure
  pure-eq a s = refl

  pub attempt-returned :
      (m : Exec W A) (s : State W) {t : State W} {r : Attempt A}
      → attempt m s ≡ (returned r, t)
      → m s ≡ (r, t)
  unfolding attempt
  attempt-returned m s h = ground arith

  pub call-returned :
      (f : W → Attempt A × W) (s : State W) {t : State W} {a : A}
      → call f s ≡ (returned a, t)
      → (f s.world).0 ≡ returned a
  unfolding call
  call-returned f s h = ground arith

  pub call-world :
      (f : W → Attempt A × W) (s : State W) {t : State W} {a : A}
      → call f s ≡ (returned a, t)
      → f s.world ≡ (returned a, t.world)
  unfolding call
  call-world f s h = ap (λ x. (x.0, x.1.world)) h

  pub pure-state : (a : A) (s : State W) {t : State W} {b : A} → pure a s ≡ (returned b, t) → s ≡ t
  unfolding pure
  pure-state a s h = ap (λ x. x.1) h

  pub pure-returned :
      (a : A) (s : State W) {t : State W} {b : A} → pure a s ≡ (returned b, t) → a ≡ b
  unfolding pure
  pure-returned a s h = cc

All-mono :
    (P Q : Event → Type 0) (xs : List Event) → ((e : Event) → P e → Q e) → All P xs → All Q xs
All-mono P Q [] f h = tt
All-mono P Q (x ∷ xs) f h = (f x h.0, All-mono P Q xs f h.1)

pub Emits-mono :
    {W A : Type 0} (P Q : Event → Type 0) (m : Exec W A) (s : State W)
    → ((e : Event) → P e → Q e)
    → Emits P m s
    → Emits Q m s
Emits-mono P Q m s f h = record {
  at = record {
    fresh = h.at.fresh;
    grows = h.at.grows;
    each = All-mono P Q h.at.fresh f h.at.each;
  };
}
