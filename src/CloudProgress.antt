-- ===== src/CloudProgress.antt =====
-- createCloudProgressClient and mergeCoachingSummaries of cloudflare/public/cloud-progress.js: the
-- copies of coaching summaries that a server keeps. The server's replies are a parameter.
pub mod Listing
pub mod Merging
mod Tests
use non_stop_talk.Prelude.{
  ℕ, zero, suc, Bool, true, false, not, ◌&&◌, List, [], ◌∷◌, ◌++◌, Option, none, some, ltb,
  if◌then◌else◌, length,
}
use non_stop_talk.Text.{Text, same_text, is_empty}
use non_stop_talk.Js.{Js, null, str, arr, items, field_of, fields_of}
use non_stop_talk.Room.{contains_text}
use non_stop_talk.Room.Packs.{codes}

abbrev pub max_listed_summaries : ℕ
max_listed_summaries = 5000

-- A summary with its id, a text that is empty if there is none, and String(createdAt).
pub record Item : Type 0 where
  pub id : Text
  pub created_at : Text
  pub rest : Js

-- byId.set(item.id, item)
unfoldable pub set_item : Item → List Item → List Item
set_item item [] = item ∷ []
set_item item (x ∷ rest) =
    let more = set_item item rest in if same_text x.id item.id then item ∷ rest else x ∷ more

unfoldable pub set_items : List Item → List Item → List Item
unfolding set_item
set_items [] all = all
set_items (item ∷ rest) all =
    let next = if is_empty item.id then all else set_item item all in set_items rest next

-- A stable sort by what localeCompare says, `newer a b` if it puts a in front of b.
unfoldable pub insert_item : (Text → Text → Bool) → Item → List Item → List Item
insert_item newer item [] = item ∷ []
insert_item newer item (x ∷ rest) =
    let more = insert_item newer item rest in
    if newer x.created_at item.created_at then x ∷ more else item ∷ x ∷ rest

unfoldable pub sort_items : (Text → Text → Bool) → List Item → List Item
unfolding insert_item
sort_items newer [] = []
sort_items newer (x ∷ rest) = insert_item newer x (sort_items newer rest)

-- mergeCoachingSummaries
unfoldable pub merge_summaries : (Text → Text → Bool) → List Item → List Item → List Item
unfolding sort_items set_items
merge_summaries newer locals clouds = sort_items newer (set_items locals (set_items clouds []))

-- The preference in localStorage, which may be absent and may throw.
pub record Preference : Type 0 where
  pub available : Bool
  pub throws : Bool
  pub item : Js

abbrev pub is_enabled_value : Js → Bool
is_enabled_value (str s) = same_text s (codes "enabled")
is_enabled_value _ = false

-- isEnabled
unfoldable pub is_enabled : Preference → Bool
is_enabled p = p.available && not p.throws && is_enabled_value p.item

abbrev preference_item : Bool → Js
preference_item true = str (codes "enabled")
preference_item false = null

-- setEnabled
unfoldable pub set_enabled : Bool → Preference → Preference
set_enabled enabled p =
    if p.available && not p.throws then record p { item = preference_item enabled } else p

-- What a fetch comes to: nothing, or a response with its `ok` and its payload, which is an empty
-- object if there is no JSON.
pub data Reply : Type 0 where
  unreachable : Reply
  response : Bool → Js → Reply

pub data Failure : Type 0 where
  unavailable type_error repeated_cursor too_many : Failure
  refused : Js → Failure

pub data Answer {ℓ} (A : Type ℓ) : Type ℓ where
  returned : A → Answer A
  failed : Failure → Answer A

abbrev pub is_null : Js → Bool
is_null null = true
is_null _ = false

-- `request`. A read of a field of null is a TypeError.
unfoldable pub request : Reply → Answer Js
request unreachable = failed unavailable
request (response true payload) = returned payload
request (response false payload) =
    if is_null payload then failed type_error else failed (refused payload)

abbrev then_prefer : Bool → Preference → Answer Js → Answer Js × Preference
then_prefer enabled p (returned payload) = (returned payload, set_enabled enabled p)
then_prefer enabled p (failed e) = (failed e, p)

abbrev session_of : Answer Js × Preference → Answer Js × Preference
session_of (returned payload, p) =
    if is_null payload
    then (failed type_error, p)
    else (returned (field_of (codes "session") (fields_of payload)), p)
session_of (failed e, p) = (failed e, p)

-- save
unfoldable pub save : Reply → Preference → Answer Js × Preference
unfolding request set_enabled
save reply p = session_of (then_prefer true p (request reply))

-- clear
unfoldable pub clear : Reply → Preference → Answer Js × Preference
unfolding request set_enabled
clear reply p = then_prefer false p (request reply)

abbrev array_items : Js → List Js
array_items (arr xs) = items xs
array_items _ = []

-- What a page adds to `sessions`.
unfoldable pub page_sessions : Js → List Js
page_sessions payload = array_items (field_of (codes "sessions") (fields_of payload))

abbrev cursor_text : Js → Option Text
cursor_text (str []) = none
cursor_text (str s) = some s
cursor_text _ = none

unfoldable pub next_cursor : Js → Option Text
next_cursor payload = cursor_text (field_of (codes "nextCursor") (fields_of payload))

-- One round of the loop of list: it ends, or goes on with all sessions so far and a cursor.
pub data Round : Type 0 where
  stops : Answer (List Js) → Round
  goes_on : List Js → Text → Round

abbrev pub after_page : List Js → List Text → Option Text → Round
after_page all seen none = stops (returned all)
after_page all seen (some next) =
    if contains_text next seen
    then stops (failed repeated_cursor)
    else if ltb (length all) max_listed_summaries
    then goes_on all next
    else stops (failed too_many)

abbrev pub with_payload : List Js → List Text → Answer Js → Round
with_payload sessions seen (failed e) = stops (failed e)
with_payload sessions seen (returned payload) =
    if is_null payload
    then stops (failed type_error)
    else after_page (sessions ++ page_sessions payload) seen (next_cursor payload)

unfoldable pub round : List Js → List Text → Reply → Round
round sessions seen reply = with_payload sessions seen (request reply)

-- A server: its reply to a request, by the number of the request and the cursor.
abbrev pub Server : Type 0
Server = ℕ → Option Text → Reply

-- The loop, for so many rounds at most. `none` is a loop that is not at its end by then.
unfoldable pub list_from :
    Server → ℕ → ℕ → List Js → List Text → Option Text → Option (Answer (List Js))
unfolding round
list_from server zero count sessions seen cursor = none
list_from server (suc fuel) count sessions seen cursor =
    elim (round sessions seen (server count cursor)) [
      | stops answer ↦ some answer
      | goes_on all next ↦ list_from server fuel (suc count) all (next ∷ seen) (some next)
    ]

-- list
unfoldable pub list : Server → ℕ → Option (Answer (List Js))
unfolding list_from
list server fuel = list_from server fuel 0 [] [] none
