-- ===== src/Pipelines.antt =====
-- capability.go: pipelines, the operations that lead from an answer to a pointer in its result.
-- An answer is known by a number. A default value is none for a nil slice.
pub mod Paths
mod Tests
use go_capnproto.Prelude.{ℕ, zero, suc, List, [], ◌∷◌, Option, none, some, length, replicate, set}

pub record PipelineOp : Type 0 where
  pub field : ℕ
  pub default_value : Option (List ℕ)

-- One without a parent is the root of an answer.
pub data Pipeline : Type 0 where
  root_of : ℕ → Pipeline
  derived : ℕ → Pipeline → PipelineOp → Pipeline

unfoldable pub new_pipeline : ℕ → Pipeline
new_pipeline ans = root_of ans

unfoldable pub answer : Pipeline → ℕ
answer (root_of ans) = ans
answer (derived ans parent op) = ans

unfoldable pub get_pipeline_default : Pipeline → ℕ → Option (List ℕ) → Pipeline
get_pipeline_default p off def = derived (answer p) p (record { field = off; default_value = def })

unfoldable pub get_pipeline : Pipeline → ℕ → Pipeline
get_pipeline p off = get_pipeline_default p off none

-- The loop that counts the operations.
unfoldable pub count_ops : Pipeline → ℕ
count_ops (root_of ans) = 0
count_ops (derived ans parent op) = suc (count_ops parent)

abbrev no_op : PipelineOp
no_op = record { field = 0; default_value = none }

-- The loop that puts them in place, from the last index, `i - 1`, down. It ends with the root, so
-- the index does not run out first.
unfoldable pub place_ops : ℕ → Pipeline → List PipelineOp → List PipelineOp
place_ops i (root_of ans) xform = xform
place_ops zero (derived ans parent op) xform = xform
place_ops (suc i) (derived ans parent op) xform = place_ops i parent (set xform i op)

-- `Pipeline.Transform`
unfoldable pub transform : Pipeline → List PipelineOp
transform p = let n = count_ops p in place_ops n p (replicate n no_op)
