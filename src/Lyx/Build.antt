-- ===== src/Lyx/Build.antt =====
-- Building a data tree node by node (src/confd/src/lib/lyx.c, lydx_new_path). The flag says that
-- the node is the first of its tree; it is cleared by every call, so that a caller passes it once.
use infix_lib.Prelude.{ℤ, String, Bool, [], ◌∷◌}
use infix_lib.Text.{concat}
use infix_lib.Machine.Values.{lyd_new_path}
use infix_lib.Machine.{M, request}

unfoldable pub lydx_new_path : Bool → String → String → String → M ℤ
lydx_new_path first xpath_base node val =
    request (lyd_new_path first (concat (xpath_base ∷ "/" ∷ node ∷ [])) val)
