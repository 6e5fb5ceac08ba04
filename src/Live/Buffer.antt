-- ===== src/Live/Buffer.antt =====
-- `LiveBuffer` (frontend/src/lib/live-buffer.ts): frames land in maps, and a flush hands them out. A
-- listener is a number, its identity; a listener set is shared by its subscribers, so it is a cell of
-- the store `sets`. What a listener or the handler throws is swallowed, so their calls are the result.
pub mod Delivery
pub mod Newest
pub mod Reachable
use Prim.Native.String
use iot_saas.Prelude.{
  ℕ, suc, String, Bool, true, false, not, ◌&&◌, ◌||◌, Option, none, some, List, [], ◌∷◌, ◌++◌, map,
  any, keep, ◌==◌, if◌then◌else◌,
}
use iot_saas.Prelude.Numbers.{Numbers}
use iot_saas.Live.Maps.{lookup, store, erase, has}

pub record LivePoint (N : Type 0) : Type 0 where
  pub t : N
  pub v : N

pub record LatestReading (N : Type 0) : Type 0 where
  pub metric : String
  pub value : N
  pub t : N

pub record LiveBuffer (N : Type 0) : Type 0 where
  pub latest : List (String × List (String × LatestReading N))
  pub series : List (String × List (LivePoint N))
  pub listeners : List (String × ℕ)
  pub sets : ℕ → List ℕ
  pub next_set : ℕ
  pub scheduled : Bool

unfoldable pub series_key : String → String → String
series_key device metric = String.◌++◌ device (String.◌++◌ "\0" metric)

abbrev pub or_empty : {A : Type 0} → Option (List A) → List A
or_empty none = []
or_empty (some xs) = xs

abbrev no_entries : {A : Type 0} → List A → Bool
no_entries [] = true
no_entries (x ∷ xs) = false

-- `sets` after the cell of a set is changed
abbrev pub set_at : ℕ → List ℕ → (ℕ → List ℕ) → ℕ → List ℕ
set_at s xs sets r = if s == r then xs else sets r

-- `set.add(listener)`
abbrev pub add_listener : ℕ → List ℕ → List ℕ
add_listener l xs = if any (λ x. x == l) xs then xs else xs ++ l ∷ []

pub record Subscription (N : Type 0) : Type 0 where
  pub buffer : LiveBuffer N
  pub key : String
  pub set : ℕ

-- The calls that a flush makes: the handler with a batch, and each listener with its points.
pub record Flushed (N : Type 0) : Type 0 where
  pub buffer : LiveBuffer N
  pub batch : Option (List (String × List (LatestReading N)))
  pub drawn : List (ℕ × List (LivePoint N))

module _ {N : Type 0} where
  -- a new LiveBuffer
  unfoldable pub empty_buffer : LiveBuffer N
  empty_buffer = record {
    latest = [];
    series = [];
    listeners = [];
    sets = λ s. [];
    next_set = 0;
    scheduled = false;
  }

  -- the listener set of the key, new where there is none
  unfoldable pub subscribe_in : String → ℕ → LiveBuffer N → Option ℕ → Subscription N
  subscribe_in key l b (some s) = record {
    buffer = record b { sets = set_at s (add_listener l (b.sets s)) b.sets };
    key = key;
    set = s;
  }
  subscribe_in key l b none = record {
    buffer = record b {
      listeners = store key b.next_set b.listeners;
      sets = set_at b.next_set (l ∷ []) b.sets;
      next_set = suc b.next_set;
    };
    key = key;
    set = b.next_set;
  }

  unfoldable pub subscribe_series : String → String → ℕ → LiveBuffer N → Subscription N
  unfolding subscribe_in
  subscribe_series device metric l b =
      let key = series_key device metric in subscribe_in key l b (lookup key b.listeners)

  -- what `subscribeSeries` returns, called: the closure holds the key and the set
  unfoldable pub unsubscribe : String → ℕ → ℕ → LiveBuffer N → LiveBuffer N
  unsubscribe key s l b =
      let left = keep (λ x. not (x == l)) (b.sets s) in
      if no_entries left
      then (record b {
        sets = set_at s left b.sets;
        listeners = erase key b.listeners;
        series = erase key b.series;
      })
      else record b { sets = set_at s left b.sets }

  unfoldable pub clear : LiveBuffer N → LiveBuffer N
  clear b = record b { latest = []; series = [] }

  abbrev batch_of :
      List (String × List (String × LatestReading N)) → List (String × List (LatestReading N))
  batch_of latest = map (λ e. (e.0, map (λ r. r.1) e.1)) latest

  abbrev listeners_of : LiveBuffer N → Option ℕ → List ℕ
  listeners_of b none = []
  listeners_of b (some s) = b.sets s

  unfoldable pub drawn_of :
      LiveBuffer N → List (String × List (LivePoint N)) → List (ℕ × List (LivePoint N))
  drawn_of b [] = []
  drawn_of b ((key, points) ∷ series) =
      map (λ l. (l, points)) (listeners_of b (lookup key b.listeners)) ++ drawn_of b series

  unfoldable pub flush : (hidden handled : Bool) → LiveBuffer N → Flushed N
  unfolding clear drawn_of
  flush hidden handled b =
      if hidden
      then (record { buffer = clear (record b { scheduled = false }); batch = none; drawn = [] })
      else record {
        buffer = record b { scheduled = false; latest = []; series = [] };
        batch = if not (no_entries b.latest) && handled then some (batch_of b.latest) else none;
        drawn = drawn_of b b.series;
      }

module _ {N : Type 0} (𝓝 : Numbers N) where
  -- `!current || t >= current.t`
  abbrev pub newer : Option (LatestReading N) → LatestReading N → LatestReading N
  newer none r = r
  newer (some current) r = if 𝓝.le current.t r.t then r else current

  abbrev keep_latest :
      String
      → LatestReading N
      → List (String × List (String × LatestReading N))
      → List (String × List (String × LatestReading N))
  keep_latest device r latest =
      let per_device = or_empty (lookup device latest) in
      store device (store r.metric (newer (lookup r.metric per_device) r) per_device) latest

  abbrev keep_point : String → LivePoint N → LiveBuffer N → List (String × List (LivePoint N))
  keep_point key p b =
      if has key b.listeners
      then store key (or_empty (lookup key b.series) ++ p ∷ []) b.series
      else b.series

  -- `push`, which asks for a flush where none is scheduled: then `scheduled` turns true.
  unfoldable pub push : Bool → String → String → N → N → LiveBuffer N → LiveBuffer N
  push hidden device metric value t b = if hidden then b else record b {
    latest = keep_latest device (record { metric = metric; value = value; t = t }) b.latest;
    series = keep_point (series_key device metric) (record { t = t; v = value }) b;
    scheduled = true;
  }
