-- ===== src/Live/Buffer/Reachable.antt =====
-- The buffers that the operations reach.
use iot_saas.Prelude.{ℕ, String, Bool, true, ◌&&◌, ◌||◌, ◌≡◌, List, All}
use iot_saas.Prelude.Numbers.{Numbers}
use iot_saas.Live.Maps.{has}
use iot_saas.Live.Buffer.{LiveBuffer, no_entries, push, subscribe_series, unsubscribe, clear, flush}

-- One call of a method, whatever the page shows and whoever calls.
pub data Step {N : Type 0} (𝓝 : Numbers N) : LiveBuffer N → LiveBuffer N → Type 0 where
  pushed :
      (hidden : Bool) (device metric : String) (value t : N) (b : LiveBuffer N)
      → Step 𝓝 b (push 𝓝 hidden device metric value t b)
  subscribed :
      (device metric : String) (l : ℕ) (b : LiveBuffer N)
      → Step 𝓝 b (subscribe_series device metric l b).buffer
  unsubscribed : (key : String) (s l : ℕ) (b : LiveBuffer N) → Step 𝓝 b (unsubscribe key s l b)
  cleared : (b : LiveBuffer N) → Step 𝓝 b (clear b)
  flushed : (hidden handled : Bool) (b : LiveBuffer N) → Step 𝓝 b (flush hidden handled b).buffer

pub data Reaches {N : Type 0} (𝓝 : Numbers N) : LiveBuffer N → LiveBuffer N → Type 0 where
  stay : (b : LiveBuffer N) → Reaches 𝓝 b b
  after : (a b c : LiveBuffer N) → Reaches 𝓝 a b → Step 𝓝 b c → Reaches 𝓝 a c

abbrev Heard : {A : Type 0} → List (String × ℕ) → List (String × A) → Type 0
Heard listeners series = All (λ e. has e.0 listeners ≡ true) series

-- Nothing waits without a flush to come, and points are kept only for a series that has listeners.
pub record IsKept {N : Type 0} (b : LiveBuffer N) : Type 0 where
  pub waits : ((no_entries b.latest && no_entries b.series) || b.scheduled) ≡ true
  pub heard : Heard b.listeners b.series
