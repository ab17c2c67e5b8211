-- ===== src/Orchestrator/Exchange.antt =====
-- infra/orchestrator.py: `ensure_exchange_service` and `deploy_exchange_core`, which put the
-- matching engine into the cluster. The answers of the environment are arguments.
use trade_plat.Common.{◌≡◌, refl, [], ◌∷◌, Option, some}
use trade_plat.Orchestrator.Effects.{
  build_image, create_service, create_deployment, Raised, Run, emit, ◌>>◌,
}
use trade_plat.Orchestrator.Cluster.{tolerate, build, demand}

unfoldable pub ensure_exchange_service : Option Raised → Run Unit
ensure_exchange_service answer = emit create_service >> tolerate 409 answer

-- The image is built with `check=True` before the deployment is asked for.
unfoldable pub deploy_exchange_core : Option Raised → Option Raised → Run Unit
deploy_exchange_core built answer = build built >> (emit create_deployment >> tolerate 409 answer)

-- What a build that raises leaves: no deployment, and its exception.
deploy_exchange_core-unbuilt :
    (x : Raised) (answer : Option Raised)
    → (deploy_exchange_core (some x) answer).effects ≡ build_image ∷ []
unfolding deploy_exchange_core build demand
deploy_exchange_core-unbuilt x answer = refl
