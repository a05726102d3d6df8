-- ===== src/Pc/Worker/Retries.antt =====
-- The retries of an ack: when it is acked, and how long it takes.
use home_inference_server.Prelude.{ℕ, zero, suc, ◌-◌, ◌≤◌, ◌<◌, false, ◌≡◌, arith}
use home_inference_server.Pc.Worker.{Net, AckEnd, ack_with_retry}

-- What the end of an ack says of the network.
pub record Tried (net : Net) (o : AckEnd) : Type 0 where
  pub few : (1 ≤ o.posts) × (o.posts ≤ 3)
  pub earlier_fail : (i : ℕ) → suc i < o.posts → net.posted i ≡ false
  pub last : o.acked ≡ net.posted (o.posts - 1)
  pub persistent :
      ((i : ℕ) → (net.done_after i ≡ false) × (net.done_asleep i ≡ false))
      → o.acked ≡ false
      → o.posts ≡ 3
  pub short : o.slept ≤ 3_000_000_000

earlier_posts-fail : (net : Net) (i : ℕ) → suc i < (ack_with_retry net).posts → net.posted i ≡ false
unfolding ack_with_retry
earlier_posts-fail net zero h = ground arith
earlier_posts-fail net (suc zero) h = ground arith
earlier_posts-fail net (suc (suc i)) h = absurd (ground arith)

pub ack_with_retry-Tried : (net : Net) → Tried net (ack_with_retry net)
unfolding ack_with_retry
ack_with_retry-Tried net = record {
  few = (ground arith, ground arith);
  earlier_fail = earlier_posts-fail net;
  last = ground arith;
  persistent = λ alive lost. ground (arith, alive 0, alive 1);
  short = ground arith;
}
