-- ===== src/Queue/Work/Turns.antt =====
-- `Do` over the concurrent queue is `do_work` of Queue/Exec at the turn of its job: what the rest of
-- the program takes for granted.
use gomc_rest.Queue.Work.Delivery.{outcome}
use mathlib.Core.List.{append-nil}
use gomc_rest.Common.{
  ◌≤◌, length, Option, ℕ, zero, suc, ◌≡◌, refl, sym, ap, subst, ◌∙◌, ◌⊎◌, inl, inr, none, some,
  List, [], ◌∷◌, ◌++◌, get_elem?, Result, err,
}
use gomc_rest.Failure.{Error, queue_closed}
use gomc_rest.Queue.Exec.{Fate, served, turned_down, left_behind, do_work}
use gomc_rest.Queue.Work.Serial.{Explains}
use gomc_rest.Queue.Work.{Job, Ending, ran, skipped, refused}

module _ {V : Type 0} where
  -- An answer is the outcome of the job, or the error `ctx` of the caller's context.
  abbrev pub Answer : Option Error → Ending V → Result Error V → Type 0
  Answer ctx how r = (outcome how ≡ r) ⊎ ((e : Error) × (r ≡ err e) × (ctx ≡ some e))

module _ {S V : Type 0} where
  -- What a log of `total` jobs has of the job `j` for a fate, behind `before` others: its entry in
  -- its own place, which fits the fate, or none, and then its place is not reached. An error that is
  -- not the one in the log is that of the context.
  abbrev pub IsOwn :
      Option Error → Job S V → (total before : ℕ) → Fate → List (Job S V × Ending V) → Type 0
  IsOwn ctx j total before (turned_down e) [] = (ctx ≡ some e) × (total ≤ j.id)
  IsOwn ctx j total before served ((i, ran r) ∷ []) = (i ≡ j) × (before ≡ j.id)
  IsOwn ctx j total before (left_behind e) ((i, ran r) ∷ []) =
      (i ≡ j) × (before ≡ j.id) × (ctx ≡ some e)
  IsOwn ctx j total before (turned_down e) ((i, skipped x) ∷ []) =
      (i ≡ j) × (before ≡ j.id) × ((x ≡ e) ⊎ (ctx ≡ some e))
  IsOwn ctx j total before (turned_down e) ((i, refused) ∷ []) =
      (i ≡ j) × (before ≡ j.id) × ((queue_closed ≡ e) ⊎ (ctx ≡ some e))
  IsOwn ctx j total before _ _ = ⊥

  -- The log `l` takes the state from `s` to `t`, and in it was the turn of a call of `Do` with the
  -- answer `r`, whose context has the error `ctx` then: what lies ahead of it led to the state that `do_work` found, the answer is that of
  -- `do_work`, and what lies behind went on from the state that it left.
  pub record TakesTurn (ctx : Option Error) (j : Job S V) (r : Result Error V)
      (l : List (Job S V × Ending V)) (s t : S) : Type 0 where
    pub fate : Fate
    pub ahead : List (Job S V × Ending V)
    pub own : List (Job S V × Ending V)
    pub behind : List (Job S V × Ending V)
    pub found : S
    pub parts : l ≡ ahead ++ (own ++ behind)
    pub is_own : IsOwn ctx j (length l) (length ahead) fate own
    pub before_it : Explains ahead s found
    pub answer : r ≡ (do_work fate j.execute found).0
    pub after_it : Explains behind (do_work fate j.execute found).1 t

  -- The turn of the job that stands at place `i` of a log.
  pub record Turned (l : List (Job S V × Ending V)) (i : ℕ) (j : Job S V) (how : Ending V) (s t : S)
      : Type 0 where
    ahead : List (Job S V × Ending V)
    behind : List (Job S V × Ending V)
    found : S
    parts : l ≡ ahead ++ ((j, how) ∷ [] ++ behind)
    place : length ahead ≡ i
    before_it : Explains ahead s found
    from_it : Explains ((j, how) ∷ behind) found t

  pub split_turn :
      (l : List (Job S V × Ending V)) (i : ℕ) (j : Job S V) (how : Ending V) (s t : S)
      → get_elem? l i ≡ some (j, how)
      → Explains l s t
      → Turned l i j how s t
  split_turn [] i j how s t there h = cc
  split_turn (x ∷ l) zero j how s t there h =
      let same : x ≡ (j, how) = ap (λ o. elim o [ none ↦ x | some z ↦ z ]) there in
      record {
        ahead = [];
        behind = l;
        found = s;
        parts = ap (λ z. z ∷ l) same;
        place = refl;
        before_it = refl;
        from_it = subst (λ z. Explains (z ∷ l) s t) same h;
      }
  split_turn ((k, ran r) ∷ l) (suc i) j how s t there (mine, h) =
      let rest = split_turn l i j how (k.execute s).1 t there h in
      record {
        ahead = (k, ran r) ∷ rest.ahead;
        behind = rest.behind;
        found = rest.found;
        parts = ap (λ z. (k, ran r) ∷ z) rest.parts;
        place = ap suc rest.place;
        before_it = (mine, rest.before_it);
        from_it = rest.from_it;
      }
  split_turn ((k, skipped e) ∷ l) (suc i) j how s t there h =
      let rest = split_turn l i j how s t there h in
      record {
        ahead = (k, skipped e) ∷ rest.ahead;
        behind = rest.behind;
        found = rest.found;
        parts = ap (λ z. (k, skipped e) ∷ z) rest.parts;
        place = ap suc rest.place;
        before_it = rest.before_it;
        from_it = rest.from_it;
      }
  split_turn ((k, refused) ∷ l) (suc i) j how s t there h =
      let rest = split_turn l i j how s t there h in
      record {
        ahead = (k, refused) ∷ rest.ahead;
        behind = rest.behind;
        found = rest.found;
        parts = ap (λ z. (k, refused) ∷ z) rest.parts;
        place = ap suc rest.place;
        before_it = rest.before_it;
        from_it = rest.from_it;
      }

  -- The answer of a turn by its fate.
  module _ (ctx : Option Error) (l : List (Job S V × Ending V)) (j : Job S V) (s t : S)
      (r : Result Error V) where
    Turned-as :
        (how : Ending V) (fate : Fate) (v : Turned l j.id j how s t)
        → IsOwn ctx j (length l) (length v.ahead) fate ((j, how) ∷ [])
        → r ≡ (do_work fate j.execute v.found).0
        → Explains v.behind (do_work fate j.execute v.found).1 t
        → TakesTurn ctx j r l s t
    Turned-as how fate v own mine rest = record {
      fate = fate;
      ahead = v.ahead;
      own = (j, how) ∷ [];
      behind = v.behind;
      found = v.found;
      parts = v.parts;
      is_own = own;
      before_it = v.before_it;
      answer = mine;
      after_it = rest;
    }

    pub Turned-TakesTurn :
        (how : Ending V) → Answer ctx how r → Turned l j.id j how s t → TakesTurn ctx j r l s t
    unfolding do_work
    Turned-TakesTurn (ran x) (inl same) v =
        Turned-as (ran x) served v (refl, v.place) (sym same ∙ v.from_it.0) v.from_it.1
    Turned-TakesTurn (ran x) (inr (e, late, over)) v =
        Turned-as (ran x) (left_behind e) v (refl, v.place, over) late v.from_it.1
    Turned-TakesTurn (skipped x) (inl same) v =
        Turned-as (skipped x) (turned_down x) v (refl, v.place, inl refl) (sym same) v.from_it
    Turned-TakesTurn (skipped x) (inr (e, late, over)) v =
        Turned-as (skipped x) (turned_down e) v (refl, v.place, inr over) late v.from_it
    Turned-TakesTurn refused (inl same) v =
        Turned-as refused (turned_down queue_closed) v (refl, v.place, inl refl) (sym same)
          v.from_it
    Turned-TakesTurn refused (inr (e, late, over)) v =
        Turned-as refused (turned_down e) v (refl, v.place, inr over) late v.from_it

    -- A job that the log has not reached, of a caller that has left.
    pub unlogged-TakesTurn :
        (e : Error)
        → ctx ≡ some e
        → length l ≤ j.id
        → r ≡ err e
        → Explains l s t
        → TakesTurn ctx j r l s t
    unfolding do_work
    unlogged-TakesTurn e over early same h = record {
      fate = turned_down e;
      ahead = l;
      own = [];
      behind = [];
      found = t;
      parts = sym (append-nil l);
      is_own = (over, early);
      before_it = h;
      answer = same;
      after_it = refl;
    }
