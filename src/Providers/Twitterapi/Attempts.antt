-- ===== src/Providers/Twitterapi/Attempts.antt =====
-- How often `_request` asks the server, and how long it waits.
use x_social_trader.Base.{
  ℕ, zero, suc, ◌+◌, ◌*◌, ◌<◌, ◌≡◌, ◌⊎◌, inl, inr, refl, sym, ap, subst, ◌∙◌, Bool, true, false,
  leb, Option, List, [], ◌∷◌, ◌++◌, arith, Bool-cases, if◌then◌else◌,
}
use x_social_trader.Models.Json.{Json}
use x_social_trader.Providers.Twitterapi.{
  Request, Reply, request_error, response, Answer, returned, api_error, Wire, pow2, attempts, send,
}

abbrev pub copies {ℓ} : {A : Type ℓ} → ℕ → A → List A
copies zero a = []
copies (suc n) a = a ∷ copies n a

copies-shift {ℓ} :
    {A : Type ℓ} (n : ℕ) (a : A) (l : List A) → copies n a ++ (a ∷ l) ≡ a ∷ (copies n a ++ l)
copies-shift zero a l = refl
copies-shift (suc n) a l = ap (λ k. a ∷ k) (copies-shift n a l)

-- a reply after which `_request` tries again
abbrev pub is_transient : {R : Type 0} → Reply R → Bool
is_transient request_error = true
is_transient (response status body) = leb 500 status

-- what `_request` makes of a reply that is not transient
abbrev pub verdict : {R : Type 0} → Reply R → Answer (Option (Json R))
verdict request_error = api_error
verdict (response status body) = if leb 400 status then api_error else returned body

zero_left : {n : ℕ} → n ≡ 0 + n
zero_left = omega arith

pow2_shift : (m n : ℕ) → pow2 (m + suc n) ≡ pow2 (suc m + n)
pow2_shift m n = ap pow2 (omega arith)

module _ {R : Type 0} (server : List Request → Request → Reply R) (request : Request) where
  -- the reply to the request when it was sent `i` times before
  abbrev pub reply_after : Wire → ℕ → Reply R
  reply_after wire i = server (copies i request ++ wire.sent) request

  -- Some transient replies, each followed by a pause twice as long as the one before, and the first
  -- one that is not transient, or none in `left` attempts.
  pub record Tried (left attempt : ℕ) (wire : Wire) (a : Answer (Option (Json R))) (wire' : Wire)
      : Type 0 where
    pub retries : ℕ
    pub transient : (i : ℕ) → i < retries → is_transient (reply_after wire i) ≡ true
    pub slept : wire'.slept + pow2 attempt ≡ wire.slept + pow2 (retries + attempt)
    pub ending :
        ((retries ≡ left) × (wire'.sent ≡ copies left request ++ wire.sent) × (a ≡ api_error))
        ⊎ ((retries < left)
            × (wire'.sent ≡ copies (suc retries) request ++ wire.sent)
            × (is_transient (reply_after wire retries) ≡ false)
            × (a ≡ verdict (reply_after wire retries)))

  -- the wire after the request was sent, and after a pause too
  abbrev asked : Wire → Wire
  asked wire = record wire { sent = request ∷ wire.sent }

  abbrev paused : ℕ → Wire → Wire
  paused attempt wire = record (asked wire) { slept = wire.slept + 1 * pow2 attempt }

  attempts_decided :
      (left attempt : ℕ) (wire : Wire)
      → is_transient (server wire.sent request) ≡ false
      → attempts server (suc left) attempt request wire
        ≡ (verdict (server wire.sent request), asked wire)
  unfolding attempts
  attempts_decided left attempt wire t = ground (arith, t)

  attempts_again :
      (left attempt : ℕ) (wire : Wire)
      → is_transient (server wire.sent request) ≡ true
      → attempts server (suc left) attempt request wire
        ≡ attempts server left (suc attempt) request (paused attempt wire)
  unfolding attempts
  attempts_again left attempt wire t = ground (arith, t)

  Tried-decided :
      (left attempt : ℕ) (wire : Wire)
      → is_transient (server wire.sent request) ≡ false
      → Tried (suc left) attempt wire (verdict (server wire.sent request)) (asked wire)
  Tried-decided left attempt wire t = record {
    retries = 0;
    transient = λ i h. ground (arith, h);
    slept = ap (λ n. wire.slept + pow2 n) zero_left;
    ending = inr (omega arith, refl, t, refl);
  }

  Tried-again :
      (left attempt : ℕ) (wire : Wire) (a : Answer (Option (Json R))) (wire' : Wire)
      → is_transient (server wire.sent request) ≡ true
      → Tried left (suc attempt) (paused attempt wire) a wire'
      → Tried (suc left) attempt wire a wire'
  Tried-again left attempt wire a wire' t h = record {
    retries = suc h.retries;
    transient = earlier;
    slept = omega (arith, h.slept, pow2_shift h.retries attempt);
    ending = elim h.ending [
      | inl (e, s, f) ↦ inl (ap suc e, s ∙ copies-shift left request wire.sent, f)
      | inr (l, s, n, e) ↦ inr (
        omega (arith, l),
        s ∙ copies-shift (suc h.retries) request wire.sent,
        subst (λ r. is_transient r ≡ false) (reply-shift h.retries) n,
        e ∙ ap verdict (reply-shift h.retries),
      )
    ];
  }
    where
      reply-shift : (i : ℕ) → reply_after (paused attempt wire) i ≡ reply_after wire (suc i)
      reply-shift i = ap (λ sent. server sent request) (copies-shift i request wire.sent)

      earlier : (i : ℕ) → i < suc h.retries → is_transient (reply_after wire i) ≡ true
      earlier zero l = t
      earlier (suc i) l =
          subst (λ r. is_transient r ≡ true) (reply-shift i) (h.transient i (omega (arith, l)))

  attempts-Tried :
      (left attempt : ℕ) (wire : Wire)
      → let (a, wire') = attempts server left attempt request wire in
        Tried left attempt wire a wire'
  unfolding attempts
  attempts-Tried zero attempt wire = record {
    retries = 0;
    transient = λ i h. ground (arith, h);
    slept = ap (λ n. wire.slept + pow2 n) zero_left;
    ending = inl (refl, refl, refl);
  }
  attempts-Tried (suc left) attempt wire =
      elim (Bool-cases (is_transient (server wire.sent request))) [
        | inl t ↦
            subst (λ r. Tried (suc left) attempt wire r.0 r.1)
              (sym (attempts_again left attempt wire t))
              (Tried-again left attempt wire _ _ t
                (attempts-Tried left (suc attempt) (paused attempt wire)))
        | inr t ↦
            subst (λ r. Tried (suc left) attempt wire r.0 r.1)
              (sym (attempts_decided left attempt wire t)) (Tried-decided left attempt wire t)
      ]

  -- `_request` sends a request again only after a `RequestError` or a status of 500 or more, three
  -- times at most, and its answer is made of the last reply: the body below status 400, a
  -- `TwitterApiIoError` from 400 to 499 and after three replies that called for another attempt.
  -- After n of these it has slept 2 ^ n - 1 seconds.
  pub send-Tried :
      (wire : Wire) → let (a, wire') = send server request wire in Tried 3 0 wire a wire'
  unfolding send
  send-Tried wire = attempts-Tried 3 0 wire
