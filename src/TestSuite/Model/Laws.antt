-- ===== src/TestSuite/Model/Laws.antt =====
-- The reference model keeps its keys ascending.
use rpi4_usb_io_breaker.Base.{List, [], ◌∷◌}
use rpi4_usb_io_breaker.Base.Ord.{list_ord}
use rpi4_usb_io_breaker.BTreeMap.Sorted.{IsSorted, insert-IsSorted, remove-IsSorted}
use rpi4_usb_io_breaker.Core.Types.{DbMapId}
use rpi4_usb_io_breaker.Core.Contract.{Db, modify}
use rpi4_usb_io_breaker.TestSuite.Model.{WriteAction, put, del, Model, model_action, extend_model}

pub model_action-IsSorted : (a : WriteAction) (m : Model) → IsSorted m → IsSorted (model_action a m)
unfolding model_action
model_action-IsSorted (put k v) m s = insert-IsSorted k v m s
model_action-IsSorted (del k) m s = remove-IsSorted k m s

pub extend_model-IsSorted :
    (m : Model) (actions : List WriteAction) → IsSorted m → IsSorted (extend_model m actions)
unfolding extend_model
extend_model-IsSorted m [] s = s
extend_model-IsSorted m (a ∷ actions) s =
    extend_model-IsSorted (model_action a m) actions (model_action-IsSorted a m s)

-- the actions on one map of a database
abbrev pub db_actions : DbMapId → List WriteAction → Db → Db
db_actions i actions d = modify (λ m. extend_model m actions) i d
