-- ===== src/Node/Renewing.antt =====
-- The log over a whole GetNewView (pbft/network/view.go): it is cut, filled, and left in order.
use pa_bft.Base.{int64_key}
use pa_bft.Base.Map.{Map}
use pa_bft.Node.{Node}
