-- ===== src/CloudProgress/Tests.antt =====
-- Tests of the model of cloudflare/public/cloud-progress.js.
use non_stop_talk.Prelude.{zero, suc, ◌≡◌, refl, true, false, List, [], ◌∷◌, none, some, arith}
use non_stop_talk.Text.{same_text}
use non_stop_talk.Js.{
  Js, null, bool, str, arr, object, Fields, field, end, cons, nil, field_of, fields_of,
}
use non_stop_talk.Room.Packs.{codes}
use non_stop_talk.CloudProgress.{
  Item, merge_summaries, Preference, is_enabled, set_enabled, save, clear, Answer, returned, failed,
  repeated_cursor, Reply, response, request, next_cursor, page_sessions, Server, list,
  max_listed_summaries,
}
use non_stop_talk.CloudProgress.Listing.{HasFullPages, IsListing, list-ends, list-IsListing}
use non_stop_talk.CloudProgress.Merging.{find_item, last_item, prefer, find_item-merge_summaries}

abbrev page : Js → Fields → Reply
page session rest = response true (object (field (codes "sessions") (arr (cons session nil)) rest))

-- Two pages, then the first one again.
abbrev two_pages : Server
two_pages zero cursor = page (bool true) (field (codes "nextCursor") (str (codes "a")) end)
two_pages (suc n) cursor = page (bool false) end

-- A server whose cursor does not move.
abbrev stuck : Server
stuck n cursor = page (bool true) (field (codes "nextCursor") (str (codes "a")) end)

client : Unit {0}
unfolding list request next_cursor page_sessions fields_of field_of same_text save clear set_enabled
    is_enabled
client = tt

lists_both : list two_pages 2 ≡ some (returned (bool true ∷ bool false ∷ []))
unfolding client
lists_both = refl

sees_repetition : list stuck 5 ≡ some (failed repeated_cursor)
unfolding client
sees_repetition = refl

abbrev stored : Preference
stored = record { available = true; throws = false; item = null }

prefers_after_save : is_enabled (save (response true (object end)) stored).1 ≡ true
unfolding client
prefers_after_save = refl

forgets_after_clear :
    is_enabled (clear (response true (object end)) (set_enabled true stored)).1 ≡ false
unfolding client
forgets_after_clear = refl

two_pages-HasFullPages : HasFullPages two_pages
unfolding client
two_pages-HasFullPages zero cursor payload next h k = ground (arith, h)
two_pages-HasFullPages (suc n) cursor payload next h k = ground (arith, h, k)

list-ends_example :
    (answer : Answer (List Js)) × (list two_pages max_listed_summaries ≡ some answer)
list-ends_example = list-ends two_pages two_pages-HasFullPages

list-IsListing_example : IsListing two_pages 0 none (bool true ∷ bool false ∷ [])
list-IsListing_example = list-IsListing two_pages 2 (bool true ∷ bool false ∷ []) lists_both

abbrev here : Item
here = record { id = codes "s1"; created_at = codes "2024"; rest = bool true }

abbrev copy : Item
copy = record { id = codes "s1"; created_at = codes "2024"; rest = bool false }

find_item-merge_summaries_example :
    find_item (codes "s1") (merge_summaries (λ s t. false) (here ∷ []) (copy ∷ []))
    ≡ prefer (last_item (codes "s1") (here ∷ [])) (last_item (codes "s1") (copy ∷ []))
find_item-merge_summaries_example =
    find_item-merge_summaries (λ s t. false) (here ∷ []) (copy ∷ []) (codes "s1") refl
