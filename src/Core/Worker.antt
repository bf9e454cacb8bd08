-- ===== src/Core/Worker.antt =====
-- dag_manager/core/queue_worker.py: the worker and the three functions that it is given.
mod Examples
use qmtl.Base.{String, List, [], ◌∷◌, Bool}
use qmtl.Core.Node.{DataNode}

-- `push_fn`, `update_status_fn` and `complete_fn`, on the state `W` that they share.
pub record QueueWorker (W : Type 0) : Type 0 where
  pub push_fn : String → W → W
  pub update_status_fn : (node_id status : String) → W → W
  pub complete_fn : (node_id result : String) → W → Bool × W

module _ {W : Type 0} (worker : QueueWorker W) where
  unfoldable pub enqueue_ready_nodes : List DataNode → W → List DataNode × W
  enqueue_ready_nodes [] w = ([], w)
  enqueue_ready_nodes (n ∷ ns) w =
      let (rest, w') =
        enqueue_ready_nodes ns
          (worker.update_status_fn n.node_id "READY" (worker.push_fn n.node_id w)) in
      (n ∷ rest, w')

  unfoldable pub complete_node : (node_id result : String) → W → Bool × W
  complete_node node_id result w =
      worker.complete_fn node_id result (worker.update_status_fn node_id "COMPLETED" w)
