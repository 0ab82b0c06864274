-- ===== src/Machine/ApeStatus.antt =====
-- `ape_status` of src/ape.c, by which nearly every binding returns.
use prg_buildsh.Prelude.{ℕ, ◌==◌, if◌then◌else◌, pos}
use prg_buildsh.Machine.Values.{nil, boolean, number, string}
use prg_buildsh.Machine.Calls.{Status, Apr}
use prg_buildsh.Machine.Monad.{M, pure, ◌>>◌}
use prg_buildsh.Machine.Stack.{push}
use prg_buildsh.Prelude.{true}

-- The parameter n, which is -1 or a number of results.
pub data Count : Type 0 where
  minus_one : Count
  count : ℕ → Count

module _ (E : Apr) where
  unfoldable pub ape_status : Count → Status → M E.World ℕ
  ape_status n rv =
      if rv == 0
      then (elim n [ minus_one ↦ (do push (boolean true); pure 1) | count k ↦ pure k ])
      else (do push nil; push (string (E.strerror rv)); push (number (pos rv)); pure 3)
