-- ===== src/HostTests.antt =====
-- firmware/test_host: the tests that run on a host, as Boolean functions over the model, and the
-- assertions that they share.
pub mod Json
pub mod Query
pub mod Led
pub mod Record
pub mod FakeBus
pub mod Calibration
pub mod Driver
pub mod FakeFlash
pub mod Ticks
pub mod Filling
pub mod Rolling
pub mod Log
pub mod FakeOps
pub mod Commands
use s3_bme.Base.{ℕ, Bool, true, false, ◌&&◌, Option, none, some, List, [], ◌∷◌, ◌==◌, text_eq}

-- A test passes when each of its assertions holds, and a suite when each of its tests passes.
abbrev pub all_of : List Bool → Bool
all_of [] = true
all_of (b ∷ bs) = b && all_of bs

-- The call succeeds and leaves this string.
abbrev pub gives_text : Option (List ℕ) → List ℕ → Bool
gives_text none t = false
gives_text (some s) t = text_eq s t

abbrev pub gives_uint : Option ℕ → ℕ → Bool
gives_uint none n = false
gives_uint (some m) n = m == n

abbrev pub refuses : {A : Type 0} → Option A → Bool
refuses none = true
refuses (some a) = false
