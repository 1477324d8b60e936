-- ===== src/Providers/Feed/Backoff.antt =====
-- The pauses between the connections of a subscription.
use x_social_trader.Base.{
  not, ℕ, ◌+◌, ◌≤◌, ◌<◌, ◌≡◌, ◌⊎◌, Bool, false, List, [], ◌∷◌, All, if◌then◌else◌,
}
use x_social_trader.Runtime.{Runtime}
use x_social_trader.Providers.Feed.{Connection, refused, closed, broken, Stream, is_closing}

-- A pause is a second, or twice the one before it, or a minute where twice that would be more.
abbrev pub Follows : ℕ → List ℕ → Type 0
Follows p [] = p ≡ 1
Follows p (q ∷ ps) = (p ≡ 1) ⊎ (((q + q ≤ 60) × (p ≡ q + q)) ⊎ ((60 < q + q) × (p ≡ 60)))

abbrev pub Steps : List ℕ → Type 0
Steps [] = Unit
Steps (p ∷ ps) = Follows p ps × Steps ps

pub record IsPaced (stream : Stream) : Type 0 where
  pub next : Follows stream.backoff stream.pauses
  pub steps : Steps stream.pauses
  pub at_least : (1 ≤ stream.backoff) × All (λ p. 1 ≤ p) stream.pauses
  pub at_most : (stream.backoff ≤ 60) × All (λ p. p ≤ 60) stream.pauses

-- A connection that is refused or broken while the stream is to run on.
abbrev fails : Connection → Bool
fails (refused closing) = not closing
fails (closed closing frames) = false
fails (broken closing frames) = not closing

-- how many of the connections fail before the stream is closed
abbrev pub failures : List Connection → ℕ
failures [] = 0
failures (c ∷ cs) =
    let rest = failures cs in if is_closing c then 0 else (if fails c then 1 + rest else rest)
