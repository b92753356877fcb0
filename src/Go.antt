-- ===== src/Go.antt =====
-- What the controllers use of Go itself: errors, panics, maps that may be nil, and `fmt`.
pub mod Maps
pub mod Base64
pub mod Json
pub mod Unicode
pub mod Format
pub mod Text
pub mod Lines
pub mod Ip
pub mod Hostname
pub mod Dotted
pub mod Address
use cluster_api_provider_bmc.Base.{ℕ, ◌*◌, String, Option, ◌≡◌, ◌⊎◌, inl, inr, refl}

pub record GoError : Type 0 where
  pub message : String

-- A call that returns a value and an error, of which one is nil.
pub data Try {ℓ} (A : Type ℓ) : Type ℓ where
  ok : A → Try A
  err : GoError → Try A

-- A statement that falls through, or panics. The state at that point is kept in both cases,
-- since deferred calls still see it.
pub data Flow {ℓ} (S : Type ℓ) : Type ℓ where
  done : S → Flow S
  panic : S → Flow S

infixl 5 ◌>>=◌
abbrev pub ◌>>=◌ {ℓ} : {S : Type ℓ} → Flow S → (S → Flow S) → Flow S
done s >>= next = next s
panic s >>= next = panic s

-- `ctrl.Result`. Its field `Requeue` is never set here. A duration counts nanoseconds.
pub record CtrlResult : Type 0 where
  pub requeue_after : ℕ

-- How a method that returns `(ctrl.Result, error)` ends.
pub data Outcome : Type 0 where
  returned : CtrlResult → Option GoError → Outcome
  panicked : Outcome

abbrev pub minute : ℕ
minute = 60 * 1_000_000_000

abbrev pub no_requeue : CtrlResult
no_requeue = record { requeue_after = 0 }

abbrev pub requeue_after_1_min : CtrlResult
requeue_after_1_min = record { requeue_after = 1 * minute }

abbrev pub requeue_after_2_min : CtrlResult
requeue_after_2_min = record { requeue_after = 2 * minute }

abbrev pub requeue_after_5_min : CtrlResult
requeue_after_5_min = record { requeue_after = 5 * minute }

pub Try-cases : {A : Type 0} (t : Try A) → ((e : GoError) × (t ≡ err e)) ⊎ ((a : A) × (t ≡ ok a))
Try-cases (err e) = inl (e, refl)
Try-cases (ok a) = inr (a, refl)
