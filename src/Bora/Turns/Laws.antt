-- ===== src/Bora/Turns/Laws.antt =====
-- The gate holds whatever happens, and stops no one else's turn.
use mathlib.Core.Path.{subst}
use boreas.Prelude.{
  ◌≤◌, ◌<◌, ◌≡◌, refl, Bool, true, false, not, ◌⊎◌, inl, inr, Option, none, some, List, [], ◌∷◌,
  any, keep, change, count, length, map, arith, Bool-cases,
}
use boreas.Core.Errors.{Err, Result, ok, err, err_conflict, Result-cases}
use boreas.Core.Model.{Uuid}
use boreas.Bora.Turns.{
  Turn, turns_per_user, turns_in_flight, err_too_many, is_conv, is_of, enter, leave, cancel, turn,
  is_own, stop, stop_found, stop_all, is_deleted, stop_deleted, Move, asks, ends, stops, deletes,
  shuts_down, move, moves,
}

-- At most 20 turns run, at most 3 of one user, and at most one in a conversation.
pub record IsGated (turns : List Turn) : Type 0 where
  pub total : length turns ≤ turns_in_flight
  pub per_user : (user : Uuid) → count (is_of user) turns ≤ turns_per_user
  pub per_conv : (id : Uuid) → count (is_conv id) turns ≤ 1

count-keep : (p q : Turn → Bool) (ts : List Turn) → count q (keep p ts) ≤ count q ts
count-keep p q [] = omega arith
count-keep p q (t ∷ ts) = ground (arith, count-keep p q ts)

length-keep : (p : Turn → Bool) (ts : List Turn) → length (keep p ts) ≤ length ts
length-keep p [] = omega arith
length-keep p (t ∷ ts) = ground (arith, length-keep p ts)

count-none : (q : Turn → Bool) (ts : List Turn) → any q ts ≡ false → count q ts ≡ 0
count-none q [] h = refl
count-none q (t ∷ ts) h = ground (arith, count-none q ts)

-- Cancelling changes whose a turn is as little as where it runs.
count-change :
    (p q : Turn → Bool)
    → ((t : Turn) → q (cancel t) ≡ q t)
    → (ts : List Turn) → count q (change p cancel ts) ≡ count q ts
count-change p q same [] = refl
count-change p q same (t ∷ ts) = ground (arith, same t, count-change p q same ts)

length-change : (p : Turn → Bool) (ts : List Turn) → length (change p cancel ts) ≡ length ts
length-change p [] = refl
length-change p (t ∷ ts) = ground (arith, length-change p ts)

change-IsGated : (p : Turn → Bool) (ts : List Turn) → IsGated ts → IsGated (change p cancel ts)
change-IsGated p ts h = record {
  total = rw (length-change p ts) h.total;
  per_user = λ user. rw (count-change p (is_of user) (λ _. refl) ts) (h.per_user user);
  per_conv = λ id. rw (count-change p (is_conv id) (λ _. refl) ts) (h.per_conv id);
}

map-as-change : (ts : List Turn) → map cancel ts ≡ change (λ _. true) cancel ts
map-as-change [] = refl
map-as-change (t ∷ ts) = ground (arith, map-as-change ts)

leave-IsGated : (id : Uuid) (ts : List Turn) → IsGated ts → IsGated (leave id ts)
unfolding leave
leave-IsGated id ts h = record {
  total = omega (arith, length-keep (λ t. not (is_conv id t)) ts, h.total);
  per_user =
      λ user. omega (arith, count-keep (λ t. not (is_conv id t)) (is_of user) ts, h.per_user user);
  per_conv = λ c. omega (arith, count-keep (λ t. not (is_conv id t)) (is_conv c) ts, h.per_conv c);
}

-- What the gate says of a turn: a conversation that has one is a conflict; past that, a user with
-- three turns, or twenty in all, is too many; any other turn runs.
abbrev pub GateSays : Turn → List Turn → Result Err (List Turn) → Type 0
GateSays t ts (ok next) =
    (next ≡ t ∷ ts)
    × (any (is_conv t.conv) ts ≡ false)
    × (count (is_of t.user) ts < turns_per_user)
    × (length ts < turns_in_flight)
GateSays t ts (err e) =
    ((any (is_conv t.conv) ts ≡ true) × (e ≡ err_conflict))
    ⊎ ((any (is_conv t.conv) ts ≡ false)
        × (e ≡ err_too_many)
        × ((turns_per_user ≤ count (is_of t.user) ts) ⊎ (turns_in_flight ≤ length ts)))

enter_says : (t : Turn) (ts : List Turn) → GateSays t ts (enter t ts)
unfolding enter
enter_says t ts = ground arith

enter-ok : (t : Turn) (ts next : List Turn) → enter t ts ≡ ok next → GateSays t ts (ok next)
enter-ok t ts next e = subst (GateSays t ts) e (enter_says t ts)

entered-IsGated :
    (t : Turn) (ts : List Turn)
    → IsGated ts
    → any (is_conv t.conv) ts ≡ false
    → count (is_of t.user) ts < turns_per_user
    → length ts < turns_in_flight
    → IsGated (t ∷ ts)
entered-IsGated t ts h fresh mine room = record {
  total = omega (arith, room);
  per_user = λ user. elim (Bool-cases (is_of user t)) [
    | inl e ↦ ground (arith, e, mine)
    | inr e ↦ ground (arith, e, h.per_user user)
  ];
  per_conv = λ id. elim (Bool-cases (is_conv id t)) [
    | inl e ↦
        let same : t.conv ≡ id = ground (arith, e) in
        rw e (
          ground (
            arith,
            count-none (is_conv id) ts (subst (λ c. any (is_conv c) ts ≡ false) same fresh),
          ))
    | inr e ↦ ground (arith, e, h.per_conv id)
  ];
}

enter-IsGated : (t : Turn) (ts : List Turn) → IsGated ts → IsGated (move (asks t) ts)
enter-IsGated t ts h = elim (Result-cases (enter t ts)) [
  | inl (next, e) ↦
      let (same, fresh, mine, room) = enter-ok t ts next e in
      rw (e, same) (entered-IsGated t ts h fresh mine room)
  | inr (x, e) ↦ rw e h
]

stop_found-IsGated :
    (actor id : Uuid) (o : Option Turn) (ts : List Turn)
    → IsGated ts
    → IsGated (stop_found actor id o ts)
stop_found-IsGated actor id none ts h = h
stop_found-IsGated actor id (some t) ts h = change-IsGated (is_own actor id) ts h

move-IsGated : (m : Move) (ts : List Turn) → IsGated ts → IsGated (move m ts)
unfolding stop stop_all stop_deleted
move-IsGated (asks t) ts h = enter-IsGated t ts h
move-IsGated (ends id) ts h = leave-IsGated id ts h
move-IsGated (stops actor id) ts h = stop_found-IsGated actor id (turn actor id ts) ts h
move-IsGated (deletes actor id) ts h = change-IsGated (is_deleted actor id) ts h
move-IsGated shuts_down ts h = rw (map-as-change ts) (change-IsGated (λ _. true) ts h)

-- Whatever turns start, end and are stopped, in any order, at most 20 run at once, at most 3 of one
-- user, and at most one in a conversation, if that holds at the start.
pub moves-IsGated : (ms : List Move) (ts : List Turn) → IsGated ts → IsGated (moves ms ts)
unfolding moves
moves-IsGated [] ts h = h
moves-IsGated (m ∷ ms) ts h = moves-IsGated ms (move m ts) (move-IsGated m ts h)

others_change :
    (actor : Uuid) (p : Turn → Bool)
    → ((t : Turn) → p t ≡ true → is_of actor t ≡ true)
    → (ts : List Turn)
    → keep (λ t. not (is_of actor t)) (change p cancel ts) ≡ keep (λ t. not (is_of actor t)) ts
others_change actor p own [] = refl
others_change actor p own (t ∷ ts) = ground (arith, own t, others_change actor p own ts)

-- A user who stops a turn, or deletes conversations, leaves the turns of everyone else as they are.
pub stop-others :
    (actor : Uuid) (one : Uuid) (all : Option Uuid) (ts : List Turn)
    → (keep (λ t. not (is_of actor t)) (stop actor one ts) ≡ keep (λ t. not (is_of actor t)) ts)
      × (keep (λ t. not (is_of actor t)) (stop_deleted actor all ts)
          ≡ keep (λ t. not (is_of actor t)) ts)
unfolding stop stop_deleted
stop-others actor one all ts =
    (found (turn actor one ts), others_change actor (is_deleted actor all) (own all) ts)
  where
    own : (o : Option Uuid) (t : Turn) → is_deleted actor o t ≡ true → is_of actor t ≡ true
    own none t h = h
    own (some id) t h = ground (arith, h)

    found :
        (o : Option Turn)
        → keep (λ t. not (is_of actor t)) (stop_found actor one o ts)
          ≡ keep (λ t. not (is_of actor t)) ts
    found none = refl
    found (some t) = others_change actor (is_own actor one) (λ t h. ground (arith, h)) ts
