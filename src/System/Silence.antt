-- ===== src/System/Silence.antt =====
-- A step of a node that neither receives nor sends (pbft/network/node.go) brings nothing in.
use pa_bft.Base.{◌≡◌, true}
use pa_bft.Message.{PrepareMsg}
use pa_bft.Node.Threads.{Env}
use pa_bft.Server.{Wire}
use pa_bft.System.{
  System, receives, dispatches, resolves, handles, ends_prepare, ends_vote, ends_collate, executes,
  sends, prints, begins, marks_late, signals,
}
use pa_bft.System.Viewing.{
  WholeStep, inner, dispatches_view, changes_view_at, installs_view, ends_view_change,
}
use pa_bft.System.Renewing.{WholeHearsFair}
use pa_bft.System.Network.{is_local}

module _ (P : PrepareMsg → Type 0) where
  pub is_local-WholeHearsFair :
      (env : Env) (w : Wire) (a b : System) (step : WholeStep env w a b)
      → is_local step ≡ true
      → WholeHearsFair P step
  is_local-WholeHearsFair env w a b (inner x y (receives sender message node node' pairs e)) h = cc
  is_local-WholeHearsFair env w a b (inner x y (dispatches msg rest node node' pairs t e)) h = tt
  is_local-WholeHearsFair env w a b (inner x y (resolves msg rest node node' pairs t e)) h = tt
  is_local-WholeHearsFair env w a b
        (inner x y (handles seq addr now s s' msg rest node node' pairs end e t cv k)) h =
      tt
  is_local-WholeHearsFair env w a b (inner x y (ends_prepare seq s s' node node' pairs e k)) h = tt
  is_local-WholeHearsFair env w a b (inner x y (ends_vote seq s node node' pairs e k)) h = tt
  is_local-WholeHearsFair env w a b (inner x y (ends_collate seq s node node' pairs e k)) h = tt
  is_local-WholeHearsFair env w a b (inner x y (executes received rest node node' pairs pairs' t k))
        h =
      tt
  is_local-WholeHearsFair env w a b (inner x y (sends l node node' pairs frame k)) h = cc
  is_local-WholeHearsFair env w a b (inner x y (prints left left' node node' pairs events k)) h = tt
  is_local-WholeHearsFair env w a b (inner x y (begins now node node' pairs k)) h = tt
  is_local-WholeHearsFair env w a b (inner x y (marks_late seq s node node' pairs e one k)) h = tt
  is_local-WholeHearsFair env w a b (inner x y (signals seq s s' node pairs e t)) h = tt
  is_local-WholeHearsFair env w a b (dispatches_view msg rest node node' pairs t k) h = tt
  is_local-WholeHearsFair env w a b (changes_view_at seq addr now s m rest node node' pairs e t k)
        h =
      tt
  is_local-WholeHearsFair env w a b (installs_view seq addr now s m rest node node' pairs end e t k)
        h =
      tt
  is_local-WholeHearsFair env w a b (ends_view_change seq s node node' pairs e k) h = tt
