-- ===== src/Realtime/Frames.antt =====
-- The frames that the server sends: `onmessage` of connectRealtime (packages/shared/src/realtime.ts).
use iot_saas.Prelude.{
  String, false, ◌≡◌, refl, ap, Option, none, some, List, [], ◌∷◌, ◌++◌, map, if◌then◌else◌, All,
}
use Prim.Native.String as Text
use iot_saas.Prelude.Json.{
  get_field, Json, JsonText, str, arr, obj, end, field, items, is_text, from_list,
}

module _ {N : Type 0} where
  -- the characters that `for … of` goes through
  abbrev characters : String → List (Json N)
  characters Text.[] = []
  characters (Text.◌∷◌ c s) = str (Text.◌∷◌ c Text.[]) ∷ characters s

  -- `for (const message of messages)`, which throws on what is no list
  abbrev each_of : Json N → Option (List (Json N))
  each_of (arr vs) = some (items vs)
  each_of (str s) = some (characters s)
  each_of _ = none

  -- the events of a batch, and a frame that lacks them as itself
  abbrev events_or : Option (Json N) → Json N → Option (List (Json N))
  events_or none frame = some (frame ∷ [])
  events_or (some events) frame = each_of events

  -- The messages of a frame; `none` where reading it throws, as `null.type` does.
  unfoldable pub messages_of : Json N → Option (List (Json N))
  messages_of Json.null = none
  messages_of (obj o) =
      if is_text "batch" (get_field "type" o)
      then events_or (get_field "events" o) (obj o)
      else some (obj o ∷ [])
  messages_of v = some (v ∷ [])

  abbrev messages_in : Option (Json N) → Option (List (Json N))
  messages_in none = some []
  messages_in (some frame) = messages_of frame

  -- The calls of onMessage for the text of a frame, whatever they throw.
  unfoldable pub on_message : JsonText N → String → Option (List (Json N))
  unfolding messages_of
  on_message json text = messages_in (json.parse text)

  -- the batch frame of some events
  abbrev pub batch : List (Json N) → Json N
  batch vs = obj (field "type" (str "batch") (field "events" (arr (from_list vs)) end))

  -- an object that is no batch itself
  abbrev pub IsLone : Json N → Type 0
  IsLone (obj o) = is_text "batch" (get_field "type" o) ≡ false
  IsLone v = ⊥

  abbrev join_messages : Option (List (Json N)) → Option (List (Json N)) → Option (List (Json N))
  join_messages (some vs) (some ws) = some (vs ++ ws)
  join_messages _ _ = none

  -- what the frames deliver, one after the other
  unfoldable pub on_messages : JsonText N → List String → Option (List (Json N))
  unfolding on_message
  on_messages json [] = some []
  on_messages json (text ∷ texts) = join_messages (on_message json text) (on_messages json texts)

  items-from_list : (vs : List (Json N)) → items (from_list vs) ≡ vs
  items-from_list [] = refl
  items-from_list (v ∷ vs) = ap (λ ws. v ∷ ws) (items-from_list vs)

  messages_of_lone : (v : Json N) → IsLone v → messages_of v ≡ some (v ∷ [])
  unfolding messages_of
  messages_of_lone (obj o) h = rw h refl
  messages_of_lone Json.null h = absurd h
  messages_of_lone (Json.bool b) h = absurd h
  messages_of_lone (Json.num n) h = absurd h
  messages_of_lone (str t) h = absurd h
  messages_of_lone (arr vs) h = absurd h

  on_messages-lone :
      (json : JsonText N) (frames : List (String × Json N))
      → All (λ f. (json.parse f.0 ≡ some f.1) × IsLone f.1) frames
      → on_messages json (map (λ f. f.0) frames) ≡ some (map (λ f. f.1) frames)
  unfolding on_messages on_message
  on_messages-lone json [] h = refl
  on_messages-lone json (f ∷ fs) (h, hs) =
      rw (h.0, messages_of_lone f.1 h.1, on_messages-lone json fs hs) refl

  -- A batch frame hands over the same messages, in the same order, as its events sent as frames of
  -- their own, where each event is an object that is no batch.
  pub on_message-batch :
      (json : JsonText N) (text : String) (frames : List (String × Json N))
      → All (λ f. (json.parse f.0 ≡ some f.1) × IsLone f.1) frames
      → json.parse text ≡ some (batch (map (λ f. f.1) frames))
      → on_message json text ≡ on_messages json (map (λ f. f.0) frames)
  unfolding on_message messages_of
  on_message-batch json text frames h e =
      rw (e, on_messages-lone json frames h) (ap some (items-from_list (map (λ f. f.1) frames)))
