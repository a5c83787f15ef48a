-- ===== src/Mobile/Reader/Own.antt =====
-- Whose answer the coordinator of apps/mobile/src/reader/open-coordinator.ts hands out.
use aesmsg.Prelude.{
  ℕ, zero, suc, ◌≡◌, refl, ap, ◌∙◌, ◌⊎◌, inl, inr, Option, none, some, List, [], ◌∷◌, ◌++◌, Text,
  text_eq, text_eq_iff, ◌==◌, ==_iff, length, Bool-cases,
}
use aesmsg.Mobile.Reader.{
  OpenPhase, in_flight, held, Session, Coordinator, BeginResult, started, joined, reuses, init,
  begin, begin_phase, settle, settle_session, clear, clear_session, start, begin_session,
}
use aesmsg.Mobile.Reader.Once.{Event, begins, clears, answers, fails, step}

module _ (Response : Type 0) where
  -- The identifier of a call.
  abbrev pub post_at : ℕ → List Text → Option Text
  post_at n [] = none
  post_at zero (x ∷ xs) = some x
  post_at (suc n) (x ∷ xs) = post_at n xs

  post_at-append :
      (n : ℕ) (xs ys : List Text) (x : Text) → post_at n xs ≡ some x → post_at n (xs ++ ys) ≡ some x
  post_at-append n [] ys x h = absurd (cc h)
  post_at-append zero (y ∷ xs) ys x h = h
  post_at-append (suc n) (y ∷ xs) ys x h = post_at-append n xs ys x h

  post_at-length : (xs : List Text) (x : Text) → post_at (length xs) (xs ++ (x ∷ [])) ≡ some x
  post_at-length [] x = refl
  post_at-length (y ∷ xs) x = post_at-length xs x

  -- Coordinators that events lead to, the latest first.
  pub data Reached : List (Event Response) → Coordinator Response → Type 0 where
    begun : Reached [] (init Response)
    after :
        {es : List (Event Response)} {c : Coordinator Response} (e : Event Response)
        → Reached es c
        → Reached (e ∷ es) (step Response e c)

  -- An answer to a call is among the events.
  abbrev pub IsAnswer : ℕ → Response → List (Event Response) → Type 0
  IsAnswer n r [] = ⊥
  IsAnswer n r (e ∷ es) = (e ≡ answers n r) ⊎ IsAnswer n r es

  abbrev IsOwnPhase : ℕ → OpenPhase Response → List (Event Response) → Type 0
  IsOwnPhase n in_flight es = Unit {0}
  IsOwnPhase n (held r) es = IsAnswer n r es

  -- The session's call was for its link, and what it holds answered that call.
  abbrev IsOwn : Option (Session Response) → List Text → List (Event Response) → Type 0
  IsOwn none posts es = Unit {0}
  IsOwn (some s) posts es = (post_at s.number posts ≡ some s.id) × IsOwnPhase s.number s.phase es

  start-IsOwn :
      (id : Text) (c : Coordinator Response) (es : List (Event Response))
      → IsOwn (start Response id c).1.current (start Response id c).1.posts es
  start-IsOwn id c es = (post_at-length c.posts id, tt)

  begin_session-IsOwn :
      (id : Text) (o : Option (Session Response)) (c : Coordinator Response)
      (es : List (Event Response))
      → c.current ≡ o
      → IsOwn c.current c.posts es
      → IsOwn (begin_session Response id o c).1.current (begin_session Response id o c).1.posts es
  begin_session-IsOwn id none c es e h = start-IsOwn id c es
  begin_session-IsOwn id (some s) c es e h = elim (Bool-cases (text_eq s.id id)) [
    | inl t ↦ rw t h
    | inr t ↦ rw t (start-IsOwn id c es)
  ]

  -- More events keep a session its own.
  more-IsOwn :
      (o : Option (Session Response)) (posts : List Text) (e : Event Response)
      (es : List (Event Response))
      → IsOwn o posts es
      → IsOwn o posts (e ∷ es)
  more-IsOwn none posts e es h = tt
  more-IsOwn (some s) posts e es h = (h.0, more s.phase h.1)
    where
      more :
          (phase : OpenPhase Response)
          → IsOwnPhase s.number phase es
          → IsOwnPhase s.number phase (e ∷ es)
      more in_flight k = tt
      more (held r) k = inr k

  settle_session-IsOwn :
      (n : ℕ) (answer : Option Response) (o : Option (Session Response)) (posts : List Text)
      (es : List (Event Response))
      → ((r : Response) → answer ≡ some r → IsAnswer n r es)
      → IsOwn o posts es
      → IsOwn (settle_session Response n answer o) posts es
  settle_session-IsOwn n answer none posts es a h = tt
  settle_session-IsOwn n none (some s) posts es a h = elim (Bool-cases (s.number == n)) [
    | inl t ↦ rw t tt
    | inr t ↦ rw t h
  ]
  settle_session-IsOwn n (some r) (some s) posts es a h = elim (Bool-cases (s.number == n)) [
    | inl t ↦ rw t (h.0, rw ((==_iff s.number n).0 t) (a r refl))
    | inr t ↦ rw t h
  ]

  clear_session-IsOwn :
      (id : Text) (o : Option (Session Response)) (posts : List Text) (es : List (Event Response))
      → IsOwn o posts es
      → IsOwn (clear_session Response id o) posts es
  clear_session-IsOwn id none posts es h = tt
  clear_session-IsOwn id (some s) posts es h = elim (Bool-cases (text_eq s.id id)) [
    | inl t ↦ rw t tt
    | inr t ↦ rw t h
  ]

  Reached-IsOwn :
      {es : List (Event Response)} {c : Coordinator Response}
      → Reached es c
      → IsOwn c.current c.posts es
  unfolding step begin settle clear
  Reached-IsOwn begun = tt
  Reached-IsOwn (after {es} {c} (begins id) r) =
      begin_session-IsOwn id c.current c (begins id ∷ es) refl
        (more-IsOwn c.current c.posts (begins id) es (Reached-IsOwn r))
  Reached-IsOwn (after {es} {c} (clears id) r) =
      clear_session-IsOwn id c.current c.posts (clears id ∷ es)
        (more-IsOwn c.current c.posts (clears id) es (Reached-IsOwn r))
  Reached-IsOwn (after {es} {c} (answers n x) r) =
      settle_session-IsOwn n (some x) c.current c.posts (answers n x ∷ es)
        (λ y e. inl (ap (answers n) (cc e)))
        (more-IsOwn c.current c.posts (answers n x) es (Reached-IsOwn r))
  Reached-IsOwn (after {es} {c} (fails n) r) =
      settle_session-IsOwn n none c.current c.posts (fails n ∷ es) (λ y e. absurd (cc e))
        (more-IsOwn c.current c.posts (fails n) es (Reached-IsOwn r))

  -- What begin gives a reader of a link.
  abbrev pub IsFor :
      Text → List (Event Response) → BeginResult Response × Coordinator Response → Type 0
  IsFor id es (started n, c) = post_at n c.posts ≡ some id
  IsFor id es (joined n, c) = post_at n c.posts ≡ some id
  IsFor id es (reuses r, c) = (n : ℕ) × (post_at n c.posts ≡ some id) × IsAnswer n r es

  begin_phase-IsFor :
      (id : Text) (n : ℕ) (phase : OpenPhase Response) (c : Coordinator Response)
      (es : List (Event Response))
      → post_at n c.posts ≡ some id
      → IsOwnPhase n phase es
      → IsFor id es (begin_phase Response n phase, c)
  begin_phase-IsFor id n in_flight c es h k = h
  begin_phase-IsFor id n (held r) c es h k = (n, h, k)

  begin_session-IsFor :
      (id : Text) (o : Option (Session Response)) (c : Coordinator Response)
      (es : List (Event Response))
      → IsOwn o c.posts es
      → IsFor id es (begin_session Response id o c)
  begin_session-IsFor id none c es h = post_at-length c.posts id
  begin_session-IsFor id (some s) c es h = elim (Bool-cases (text_eq s.id id)) [
    | inl t ↦
        rw t (
          begin_phase-IsFor id s.number s.phase c es (h.0 ∙ ap some ((text_eq_iff s.id id).0 t))
            h.1)
    | inr t ↦ rw t (post_at-length c.posts id)
  ]

  -- After any events, a reader who begins a link is given a call for that very link, or the response
  -- that answered such a call.
  pub Reached-IsFor :
      (id : Text) (es : List (Event Response)) (c : Coordinator Response)
      → Reached es c
      → IsFor id es (begin Response id c)
  unfolding begin
  Reached-IsFor id es c r = begin_session-IsFor id c.current c es (Reached-IsOwn r)
