-- ===== src/CloudProgress/Listing.antt =====
-- The loop of list, of cloudflare/public/cloud-progress.js, over the pages of a server.
use non_stop_talk.Prelude.{
  ℕ, zero, suc, ◌+◌, ◌≤◌, ◌<◌, ◌≡◌, refl, ap, ◌∙◌, false, List, [], ◌∷◌, ◌++◌, Option, none, some,
  inl, inr, length, length-append, Bool-cases, arith,
}
use mathlib.Core.List.{append_assoc}
use non_stop_talk.Text.{Text}
use non_stop_talk.Js.{Js}
use non_stop_talk.Room.{contains_text}
use non_stop_talk.CloudProgress.{
  Answer, returned, failed, Reply, request, is_null, page_sessions, next_cursor, Round, stops,
  goes_on, after_page, with_payload, round, Server, list_from, list, max_listed_summaries,
}

-- What a round that goes on has learnt.
pub record GoesOn (sessions : List Js) (seen : List Text) (reply : Reply) (all : List Js)
    (next : Text) : Type 0 where
  pub payload : Js
  pub replied : request reply ≡ returned payload
  pub present : is_null payload ≡ false
  pub joined : all ≡ sessions ++ page_sessions payload
  pub cursor : next_cursor payload ≡ some next
  pub new : contains_text next seen ≡ false
  pub fits : length all < max_listed_summaries

after_page-goes_on :
    (all all' : List Js) (seen : List Text) (cursor : Option Text) (next : Text)
    → after_page all seen cursor ≡ goes_on all' next
    → (all' ≡ all)
      × (cursor ≡ some next)
      × (contains_text next seen ≡ false)
      × (length all < max_listed_summaries)
after_page-goes_on all all' seen none next h = ground (arith, h)
after_page-goes_on all all' seen (some c) next h = ground (arith, h)

round-GoesOn :
    (sessions : List Js) (seen : List Text) (reply : Reply) (all : List Js) (next : Text)
    → round sessions seen reply ≡ goes_on all next
    → GoesOn sessions seen reply all next
unfolding round
round-GoesOn sessions seen reply all next h = go (request reply) refl h
  where
    go :
        (answer : Answer Js)
        → request reply ≡ answer
        → with_payload sessions seen answer ≡ goes_on all next
        → GoesOn sessions seen reply all next
    go (failed e) k l = ground (arith, l)
    go (returned payload) k l = elim (Bool-cases (is_null payload)) [
      | inl e ↦ ground (arith, e, l)
      | inr e ↦
          let x =
            after_page-goes_on (sessions ++ page_sessions payload) all seen (next_cursor payload)
              next (ground (arith, e, l)) in
          record {
            payload = payload;
            replied = k;
            present = e;
            joined = x.0;
            cursor = x.1;
            new = x.2;
            fits = rw x.0 x.3;
          }
    ]

-- No page of a server is empty, unless it is the last one.
abbrev pub HasFullPages : Server → Type 0
HasFullPages server =
    (count : ℕ) (cursor : Option Text) (payload : Js) (next : Text)
    → request (server count cursor) ≡ returned payload
    → next_cursor payload ≡ some next
    → 1 ≤ length (page_sessions payload)

list_from-ends :
    (server : Server) (fuel count : ℕ) (sessions : List Js) (seen : List Text)
    (cursor : Option Text)
    → HasFullPages server
    → 1 ≤ fuel
    → max_listed_summaries ≤ fuel + length sessions
    → (answer : Answer (List Js)) × (list_from server fuel count sessions seen cursor ≡ some answer)
unfolding list_from
list_from-ends server zero count sessions seen cursor full h k = ground (arith, h)
list_from-ends server (suc fuel) count sessions seen cursor full h k =
    go (round sessions seen (server count cursor)) refl
      (λ all next. list_from-ends server fuel (suc count) all (next ∷ seen) (some next) full)
  where
    go :
        (r : Round)
        → round sessions seen (server count cursor) ≡ r
        → ((all : List Js) (next : Text)
            → 1 ≤ fuel
            → max_listed_summaries ≤ fuel + length all
            → (answer : Answer (List Js)) × (list_from server fuel
                  (suc count)
                  all
                  (next ∷ seen)
                  (some next)
                ≡ some answer))
        → (answer : Answer (List Js)) × (list_from server (suc fuel) count sessions seen cursor
            ≡ some answer)
    go (stops answer) e again = (answer, ground (arith, e))
    go (goes_on all next) e again =
        let x = round-GoesOn sessions seen (server count cursor) all next e in
        let more = full count cursor x.payload next x.replied x.cursor in
        let grown : length all ≡ length sessions + length (page_sessions x.payload) =
          rw x.joined (length-append sessions (page_sessions x.payload)) in
        let rest =
          again all next (ground (arith, k, grown, more, x.fits))
            (ground (arith, k, grown, more)) in
        (rest.0, ground (arith, e, rest.1))

-- If no page but the last is empty, list comes to an end, with an answer or an error, after 5000
-- requests at most.
pub list-ends :
    (server : Server)
    → HasFullPages server
    → (answer : Answer (List Js)) × (list server max_listed_summaries ≡ some answer)
unfolding list
list-ends server full =
    list_from-ends server max_listed_summaries 0 [] [] none full (omega arith) (omega arith)

-- The pages of a server from a cursor on, joined: the last one has no cursor.
pub data IsListing (server : Server) : ℕ → Option Text → List Js → Type 0 where
  last :
      (count : ℕ) (cursor : Option Text) (payload : Js)
      → request (server count cursor) ≡ returned payload
      → next_cursor payload ≡ none
      → IsListing server count cursor (page_sessions payload)
  more :
      (count : ℕ) (cursor : Option Text) (payload : Js) (next : Text) (rest : List Js)
      → request (server count cursor) ≡ returned payload
      → next_cursor payload ≡ some next
      → IsListing server (suc count) (some next) rest
      → IsListing server count cursor (page_sessions payload ++ rest)

round-returned :
    (sessions : List Js) (seen : List Text) (reply : Reply) (xs : List Js)
    → round sessions seen reply ≡ stops (returned xs)
    → (payload : Js) × (request reply ≡ returned payload)
      × (next_cursor payload ≡ none)
      × (xs ≡ sessions ++ page_sessions payload)
unfolding round
round-returned sessions seen reply xs h = go (request reply) refl h
  where
    ended :
        (all : List Js) (cursor : Option Text)
        → after_page all seen cursor ≡ stops (returned xs)
        → (cursor ≡ none) × (xs ≡ all)
    ended all none l = ground (arith, l)
    ended all (some c) l = ground (arith, l)

    go :
        (answer : Answer Js)
        → request reply ≡ answer
        → with_payload sessions seen answer ≡ stops (returned xs)
        → (payload : Js) × (request reply ≡ returned payload)
          × (next_cursor payload ≡ none)
          × (xs ≡ sessions ++ page_sessions payload)
    go (failed e) k l = ground (arith, l)
    go (returned payload) k l = elim (Bool-cases (is_null payload)) [
      | inl e ↦ ground (arith, e, l)
      | inr e ↦
          let x =
            ended (sessions ++ page_sessions payload) (next_cursor payload)
              (ground (arith, e, l)) in
          (payload, k, x.0, x.1)
    ]

list_from-IsListing :
    (server : Server) (fuel count : ℕ) (sessions xs : List Js) (seen : List Text)
    (cursor : Option Text)
    → list_from server fuel count sessions seen cursor ≡ some (returned xs)
    → (rest : List Js) × (xs ≡ sessions ++ rest) × IsListing server count cursor rest
unfolding list_from
list_from-IsListing server zero count sessions xs seen cursor h = ground (arith, h)
list_from-IsListing server (suc fuel) count sessions xs seen cursor h =
    go (round sessions seen (server count cursor)) refl
      (λ all next. list_from-IsListing server fuel (suc count) all xs (next ∷ seen) (some next))
  where
    go :
        (r : Round)
        → round sessions seen (server count cursor) ≡ r
        → ((all : List Js) (next : Text)
            → list_from server fuel (suc count) all (next ∷ seen) (some next) ≡ some (returned xs)
            → (rest : List Js) × (xs ≡ all ++ rest) × IsListing server (suc count) (some next) rest)
        → (rest : List Js) × (xs ≡ sessions ++ rest) × IsListing server count cursor rest
    go (stops answer) e again =
        let x = round-returned sessions seen (server count cursor) xs (ground (arith, e, h)) in
        (page_sessions x.0, x.3, last count cursor x.0 x.1 x.2)
    go (goes_on all next) e again =
        let x = round-GoesOn sessions seen (server count cursor) all next e in
        let y = again all next (ground (arith, e, h)) in
        (
          page_sessions x.payload ++ y.0,
          y.1 ∙ ap (λ l. l ++ y.0) x.joined ∙ append_assoc sessions (page_sessions x.payload) y.0,
          more count cursor x.payload next y.0 x.replied x.cursor y.2,
        )

-- What list returns, after however many requests, is the server's pages joined in their order, each
-- asked for with the cursor of the one before it, from the first page to one without a cursor.
pub list-IsListing :
    (server : Server) (fuel : ℕ) (xs : List Js)
    → list server fuel ≡ some (returned xs)
    → IsListing server 0 none xs
unfolding list
list-IsListing server fuel xs h =
    let x = list_from-IsListing server fuel 0 [] xs [] none h in rw x.1 x.2
