-- ===== src/World/Frame.antt =====
-- Two worlds that agree on all that outlives a request or leaves the process.
use collabflow.Common.{◌≡◌}
use collabflow.World.State.{World}

pub record Untouched (w w' : World) : Type 0 where
  pub committed : w'.committed ≡ w.committed
  pub published : w'.published ≡ w.published
  pub queue : w'.queue ≡ w.queue
  pub bucket : w'.bucket ≡ w.bucket
