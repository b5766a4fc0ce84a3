-- ===== src/Room/Games/Standings.antt =====
-- The standings are the players in order of falling score.
use mathlib.Core.List.{Perm}
use mathlib.Core.List.Perm
use non_stop_talk.Prelude.{ℕ, ◌≤◌, List, [], ◌∷◌, arith, All, Bool-cases, inl, inr, ltb, All-imp}
use non_stop_talk.Room.{Room, Player}
use non_stop_talk.Room.Games.{insert_by_score, standings_of, standings}

-- Each player's score is at least that of all who come after.
abbrev pub Falling : List Player → Type 0
Falling [] = Unit
Falling (p ∷ ps) = All (λ q. q.score ≤ p.score) ps × Falling ps

insert-All :
    (n : ℕ) (p : Player) (ps : List Player)
    → p.score ≤ n
    → All (λ q. q.score ≤ n) ps
    → All (λ q. q.score ≤ n) (insert_by_score p ps)
unfolding insert_by_score
insert-All n p [] h k = (h, tt)
insert-All n p (q ∷ qs) h k = elim (Bool-cases (ltb p.score q.score)) [
  | inl e ↦ rw e (k.0, insert-All n p qs h k.1)
  | inr e ↦ rw e (h, k)
]

insert-Falling : (p : Player) (ps : List Player) → Falling ps → Falling (insert_by_score p ps)
unfolding insert_by_score
insert-Falling p [] h = (tt, tt)
insert-Falling p (q ∷ qs) h = elim (Bool-cases (ltb p.score q.score)) [
  | inl e ↦ rw e (insert-All q.score p qs (ground arith) h.0, insert-Falling p qs h.1)
  | inr e ↦
      let le : q.score ≤ p.score = ground arith in
      rw e ((le, All-imp _ _ qs (λ r k. omega arith) h.0), h)
]

insert-perm : (p : Player) (ps : List Player) → Perm (insert_by_score p ps) (p ∷ ps)
unfolding insert_by_score
insert-perm p [] = Perm.refl _
insert-perm p (q ∷ qs) = elim (Bool-cases (ltb p.score q.score)) [
  | inl e ↦ rw e (Perm.trans (Perm.cons q (insert-perm p qs)) (Perm.swap p q qs))
  | inr e ↦ rw e (Perm.refl _)
]

standings_of-sorted : (ps : List Player) → Falling (standings_of ps) × Perm (standings_of ps) ps
unfolding standings_of
standings_of-sorted [] = (tt, Perm.refl _)
standings_of-sorted (p ∷ ps) =
    let (falling, same) = standings_of-sorted ps in
    (insert-Falling p _ falling, Perm.trans (insert-perm p _) (Perm.cons p same))

-- The standings hold the room's players, each as often, and no score is below a later one.
pub standings-sorted : (room : Room) → Falling (standings room) × Perm (standings room) room.players
unfolding standings
standings-sorted room = standings_of-sorted room.players
