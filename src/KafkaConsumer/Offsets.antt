-- ===== src/KafkaConsumer/Offsets.antt =====
-- src/consumer/kafka_consumer.cpp, start: what happens to each message, and which offsets are committed.
use ml_distributed_fraud_eng.Common.{
  ℕ, ◌≡◌, refl, subst, Bool, true, false, List, [], ◌∷◌, ◌++◌, Option, none, some, arith, inl, inr,
  ◌⊎◌, if◌then◌else◌,
}
use ml_distributed_fraud_eng.Messages.{Transaction}
use ml_distributed_fraud_eng.KafkaConsumer.{
  Message, Action, Turn, Ended, goes_on, threw, Exit, thrown, KafkaConsumer, body_of, next_turn,
  body, loop, start, stop, poll, handle, commit, destroy,
}

-- Where the life of a message stands.
pub data Phase : Type 0 where
  idle out : Phase
  holds committed : Message → Phase
  handled : Message → Bool → Phase  -- with whether the handler returned

module _ (parse : List ℕ → Option Transaction) where
  -- One action. Only a message that parses is handled; it is committed if the handler returned, and then
  -- destroyed; if the handler threw, it is destroyed uncommitted and is the last one. The next poll comes
  -- after the message is destroyed.
  pub data Life : Phase → Action → Phase → Type 0 where
    nothing : Life idle (poll none) idle
    message : (m : Message) → Life idle (poll (some m)) (holds m)
    malformed : (m : Message) → parse m.payload ≡ none → Life (holds m) (destroy m.offset) idle
    handles :
        (m : Message) (tx : Transaction) (ok : Bool)
        → parse m.payload ≡ some tx
        → Life (holds m) (handle tx ok) (handled m ok)
    commits : (m : Message) → Life (handled m true) (commit m.offset) (committed m)
    done : (m : Message) → Life (committed m) (destroy m.offset) idle
    fails : (m : Message) → Life (handled m false) (destroy m.offset) out

  pub data Lives : Phase → List Action → Phase → Type 0 where
    none_left : {p : Phase} → Lives p [] p
    step :
        {p q r : Phase} {a : Action} {rest : List Action}
        → Life p a q
        → Lives q rest r
        → Lives p (a ∷ rest) r

  abbrev pub phase_of : Exit → Phase
  phase_of thrown = out
  phase_of _ = idle

  join :
      {p q r : Phase} {acts bs : List Action}
      → Lives p acts q
      → Lives q bs r
      → Lives p (acts ++ bs) r
  join none_left l = l
  join (step s l) k = step s (join l k)

  phase_after : Ended → Phase
  phase_after threw = out
  phase_after goes_on = idle

  message-Lives :
      (m : Message) (ok : Bool) (parsed : Option Transaction)
      → parse m.payload ≡ parsed
      → Lives idle (body_of parse m ok parsed).0 (phase_after (body_of parse m ok parsed).1)
  unfolding body_of phase_after
  message-Lives m ok none e = step (message m) (step (malformed m e) none_left)
  message-Lives m true (some tx) e =
      step (message m) (step (handles m tx true e) (step (commits m) (step (done m) none_left)))
  message-Lives m false (some tx) e =
      step (message m) (step (handles m tx false e) (step (fails m) none_left))

  body-Lives :
      (m : Option Message) (ok : Bool)
      → Lives idle (body parse m ok).0 (phase_after (body parse m ok).1)
  unfolding body phase_after
  body-Lives none ok = step nothing none_left
  body-Lives (some m) ok = message-Lives m ok (parse m.payload) refl

  next_turn-Lives :
      (acts : List Action) (e : Ended) (later : List Action) (exit : Exit) (c c' : KafkaConsumer)
      → Lives idle acts (phase_after e)
      → Lives idle later (phase_of exit)
      → Lives idle
          (next_turn parse acts e (later, exit, c') c).0
          (phase_of (next_turn parse acts e (later, exit, c') c).1)
  unfolding next_turn phase_after
  next_turn-Lives acts threw later exit c c' l k = l
  next_turn-Lives acts goes_on later exit c c' l k = join l k

  abbrev Fine : List Action × Exit × KafkaConsumer → Type 0
  Fine q = Lives idle q.0 (phase_of q.1)

  if-Fine :
      (b : Bool) (p q : List Action × Exit × KafkaConsumer)
      → Fine p
      → Fine q
      → Fine (if b then p else q)
  if-Fine true p q f g = f
  if-Fine false p q f g = g

  loop-Lives :
      (c : KafkaConsumer) (ts : List Turn)
      → Lives idle (loop parse c ts).0 (phase_of (loop parse c ts).1)
  unfolding loop
  loop-Lives c [] = none_left
  loop-Lives c (t ∷ ts) =
      let c' = if t.stop_called then stop c else c in
      let rest = loop parse c' ts in
      let (acts, ended) = body parse t.polled t.handler_returns in
      if-Fine c'.running _ _
        (next_turn-Lives acts ended rest.0 rest.1 c' rest.2 (body-Lives t.polled t.handler_returns)
          (loop-Lives c' ts))
        none_left

  -- Whatever is polled and whenever `stop` is called, the actions of `start` follow the life of one
  -- message after another: each message is destroyed exactly once, before the next poll; it is handled
  -- exactly if it parses; it is committed exactly if the handler returned, after that; and nothing
  -- follows a handler that threw.
  pub start-Lives :
      (c : KafkaConsumer) (ts : List Turn)
      → Lives idle (start parse c ts).0 (phase_of (start parse c ts).1)
  unfolding start
  start-Lives c ts = loop-Lives (record { running = true }) ts

  has_commit : List Action → Bool
  has_commit [] = false
  has_commit (commit o ∷ rest) = true
  has_commit (poll m ∷ rest) = has_commit rest
  has_commit (handle tx ok ∷ rest) = has_commit rest
  has_commit (destroy o ∷ rest) = has_commit rest

  has_commit-append :
      (before : List Action) (o : ℕ) (after : List Action)
      → has_commit (before ++ commit o ∷ after) ≡ true
  unfolding has_commit
  has_commit-append [] o after = refl
  has_commit-append (commit p ∷ before) o after = refl
  has_commit-append (poll m ∷ before) o after = has_commit-append before o after
  has_commit-append (handle tx ok ∷ before) o after = has_commit-append before o after
  has_commit-append (destroy p ∷ before) o after = has_commit-append before o after

  -- A message that is malformed, or whose handler was called, returned, and was followed by the commit of
  -- its offset, first of all that followed.
  abbrev pub Covered : Message → List Action → Type 0
  Covered m rest =
      (parse m.payload ≡ none)
      ⊎ ((tx : Transaction) × (later : List Action) × (parse m.payload ≡ some tx)
          × (rest ≡ handle tx true ∷ commit m.offset ∷ later))

  holds-Covered :
      {m : Message} {rest : List Action} {r : Phase}
      → Lives (holds m) rest r
      → has_commit rest ≡ true
      → Covered m rest
  unfolding has_commit
  holds-Covered none_left h = absurd (ground arith)
  holds-Covered (step (malformed _ e) l) h = inl e
  holds-Covered (step (handles _ tx _ e) none_left) h = absurd (ground arith)
  holds-Covered (step (handles _ tx _ e) (step (commits _) l)) h = inr (tx, _, e, refl)
  holds-Covered (step (handles _ tx _ e) (step (fails _) none_left)) h = absurd (ground arith)
  holds-Covered (step (handles _ tx _ e) (step (fails _) (step life l))) h = elim life [ ]

  polled-Covered :
      {p r : Phase} (before : List Action) (m : Message) (rest : List Action)
      → Lives p (before ++ poll (some m) ∷ rest) r
      → has_commit rest ≡ true
      → Covered m rest
  polled-Covered [] m rest (step (message _) l) h = holds-Covered l h
  polled-Covered (a ∷ before) m rest (step s l) h = polled-Covered before m rest l h

  -- At least once: when an offset is committed, every message that was polled before it either does not
  -- parse, or it was handled next, its handler returned, and its own offset was committed after that.
  pub commit-Covered :
      (c : KafkaConsumer) (ts : List Turn) (before : List Action) (m : Message)
      (between : List Action) (o : ℕ) (after : List Action)
      → (start parse c ts).0 ≡ before ++ poll (some m) ∷ (between ++ commit o ∷ after)
      → Covered m (between ++ commit o ∷ after)
  commit-Covered c ts before m between o after e =
      polled-Covered before m (between ++ commit o ∷ after)
        (subst (λ acts. Lives idle acts (phase_of (start parse c ts).1)) e (start-Lives c ts))
        (has_commit-append between o after)
