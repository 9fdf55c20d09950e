-- ===== src/Tests/Ports.antt =====
-- The router's port table at concrete calls.
use aegisvm.Base.{◌≡◌, List, [], ◌∷◌, none, some}
use aegisvm.Router.{RouterOp, allocates, frees, frees_all, route_ops, get_public_port, new_router}
use aegisvm.Router.Promises.{promised, route_ops-promised}

abbrev session : List RouterOp
session =
    allocates "a" 80 "http" (some 9001)
    ∷ allocates "a" 80 "http" (some 9002)
    ∷ allocates "b" 80 "http" none
    ∷ frees "a" 443
    ∷ frees_all "b"
    ∷ []

route_ops-promised_example :
    get_public_port "a" 80 (route_ops session new_router) ≡ promised "a" 80 session none
route_ops-promised_example = route_ops-promised "a" 80 session
