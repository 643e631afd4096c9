-- ===== src/Registry/Ends.antt =====
-- What holds of the session behind an action: `Q` of the value that it returns, or `E` after a raise.
-- One rule for each way to build an action, and one for each primitive, from a session whose
-- tables are known.
use jarvis_ai_coo.Prelude.{
  ◌≡◌, refl, ap, Bool, true, false, Option, none, some, text_eq, nat_eq, if◌then◌else◌,
}
use jarvis_ai_coo.Models.{Database}
use jarvis_ai_coo.Tenant.{TenantContext}
use jarvis_ai_coo.Errors.{Error}
use jarvis_ai_coo.Database.{
  Env, Session, Result, ok, raised, Action, resume, pure, raise, or_raise, raise_if, gets, modify,
  ◌>>=◌, commit, new_uuid, utcnow,
}

abbrev pub EndsAt :
    {A : Type 0} → (A → Session → Type 0) → (Session → Type 0) → Result A → Session → Type 0
EndsAt Q E (ok a) t = Q a t
EndsAt Q E (raised e) t = E t

pub record Ends {A : Type 0} (Q : A → Session → Type 0) (E : Session → Type 0) (m : Action A)
    (s : Session) : Type 0 where
  pub at : EndsAt Q E (m s).0 (m s).1

EndsAt-map :
    {A : Type 0} {Q Q' : A → Session → Type 0} (E : Session → Type 0) (r : Result A) (t : Session)
    → ((a : A) (u : Session) → Q a u → Q' a u)
    → EndsAt Q E r t
    → EndsAt Q' E r t
EndsAt-map E (ok a) t k h = k a t h
EndsAt-map E (raised e) t k h = h

module _ {E : Session → Type 0} where
  resume-Ends :
      {A B : Type 0} {Q : A → Session → Type 0} {Q' : B → Session → Type 0} (r : Result A)
      (t : Session) (f : A → Action B)
      → EndsAt Q E r t
      → ((a : A) (u : Session) → Q a u → Ends Q' E (f a) u)
      → EndsAt Q' E (resume r f t).0 (resume r f t).1
  resume-Ends (ok a) t f h k = (k a t h).at
  resume-Ends (raised e) t f h k = h

module _ {E : Session → Type 0} {s : Session} where
  pub Ends-map :
      {A : Type 0} {Q Q' : A → Session → Type 0} {m : Action A}
      → ((a : A) (u : Session) → Q a u → Q' a u)
      → Ends Q E m s
      → Ends Q' E m s
  Ends-map {m = m} k h = record { at = EndsAt-map E (m s).0 (m s).1 k h.at }

  pub bind-Ends :
      {A B : Type 0} {Q : A → Session → Type 0} {Q' : B → Session → Type 0} (m : Action A)
      (f : A → Action B)
      → Ends Q E m s
      → ((a : A) (u : Session) → Q a u → Ends Q' E (f a) u)
      → Ends Q' E (m >>= f) s
  unfolding ◌>>=◌
  bind-Ends m f h k = let (r, t) = m s in record { at = resume-Ends r t f h.at k }

  pub pure-Ends : {A : Type 0} {Q : A → Session → Type 0} (a : A) → Q a s → Ends Q E (pure a) s
  unfolding pure
  pure-Ends a h = record { at = h }

  pub raise-Ends : {A : Type 0} {Q : A → Session → Type 0} (e : Error) → E s → Ends Q E (raise e) s
  unfolding raise
  raise-Ends e h = record { at = h }

  pub gets-Ends :
      {A : Type 0} {Q : A → Session → Type 0} (f : Session → A) → Q (f s) s → Ends Q E (gets f) s
  unfolding gets
  gets-Ends f h = record { at = h }

  pub raise_if-Ends :
      {P : Session → Type 0} (b : Bool) (e : Error)
      → E s
      → P s
      → Ends (λ _ t. P t × (b ≡ false)) E (raise_if b e) s
  unfolding raise_if
  raise_if-Ends true e f p = record { at = f }
  raise_if-Ends false e f p = record { at = (p, refl) }

  pub or_raise-Ends :
      {A : Type 0} {P : Session → Type 0} (x : Option A) (e : Error)
      → E s
      → P s
      → Ends (λ a t. P t × (x ≡ some a)) E (or_raise x e) s
  unfolding or_raise
  or_raise-Ends none e f p = record { at = f }
  or_raise-Ends (some a) e f p = record { at = (p, refl) }

  pub if-Ends :
      {A : Type 0} {Q : A → Session → Type 0} (b : Bool) (m n : Action A)
      → (b ≡ true → Ends Q E m s)
      → (b ≡ false → Ends Q E n s)
      → Ends Q E (if b then m else n) s
  if-Ends true m n km kn = km refl
  if-Ends false m n km kn = kn refl

-- The session of a tenant's request that has not committed, and of one that has.
pub record Open (context : TenantContext) (db w : Database) (s : Session) : Type 0 where
  pub tenant : s.tenant ≡ some context
  pub stored : s.stored ≡ db
  pub working : s.working ≡ w

pub record Closed (context : TenantContext) (w : Database) (s : Session) : Type 0 where
  pub tenant : s.tenant ≡ some context
  pub stored : s.stored ≡ w
  pub working : s.working ≡ w

-- After a raise the stored tables are those of the start.
abbrev pub Same : Database → Session → Type 0
Same db s = s.stored ≡ db

module _ {context : TenantContext} {db w : Database} {s : Session} (h : Open context db w s) where
  pub new_uuid-Ends : (env : Env) → Ends (λ _ t. Open context db w t) (Same db) (new_uuid env) s
  unfolding new_uuid
  new_uuid-Ends env = record {
    at = record { tenant = h.tenant; stored = h.stored; working = h.working };
  }

  pub utcnow-Ends : (env : Env) → Ends (λ _ t. Open context db w t) (Same db) (utcnow env) s
  unfolding utcnow
  utcnow-Ends env = record {
    at = record { tenant = h.tenant; stored = h.stored; working = h.working };
  }

  pub commit-Ends : Ends (λ _ t. Closed context w t) (Same db) commit s
  unfolding commit
  commit-Ends = record {
    at = record { tenant = h.tenant; stored = h.working; working = h.working };
  }

  pub modify-Ends :
      (f : Database → Database) → Ends (λ _ t. Open context db (f w) t) (Same db) (modify f) s
  unfolding modify
  modify-Ends f = record {
    at = record { tenant = h.tenant; stored = h.stored; working = ap f h.working };
  }
