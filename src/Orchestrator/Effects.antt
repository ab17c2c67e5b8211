-- ===== src/Orchestrator/Effects.antt =====
-- A run of the orchestrator as the list of its effects and the way it ends.
use trade_plat.Common.{ℕ, List, [], ◌∷◌, ◌++◌}

-- The calls of Kubernetes, Docker, the scoring process and `time.sleep` that the code makes.
pub data Effect : Type 0 where
  create_namespace create_network_policy build_image start_scoring : Effect
  delete_pod read_pod create_pod read_phase read_log sleep_second : Effect
  terminate_scoring wait_scoring kill_scoring create_service create_deployment : Effect

-- The exceptions. `other_error` is any other one, such as an error of the connection below the
-- client of Kubernetes.
pub data Raised : Type 0 where
  api_exception : (status : ℕ) → Raised
  called_process_error timeout_error os_error runtime_error other_error : Raised

-- A value, an exception, or a loop that goes on when the answers of the environment end.
pub data Ending (A : Type 0) : Type 0 where
  done : A → Ending A
  raised : Raised → Ending A
  waiting : Ending A

pub record Run (A : Type 0) : Type 0 where
  pub effects : List Effect
  pub ending : Ending A

abbrev pub pure : {A : Type 0} → A → Run A
pure a = record { effects = []; ending = done a }

abbrev pub raise : {A : Type 0} → Raised → Run A
raise x = record { effects = []; ending = raised x }

abbrev pub wait : {A : Type 0} → Run A
wait = record { effects = []; ending = waiting }

abbrev pub emit : Effect → Run Unit
emit e = record { effects = e ∷ []; ending = done tt }

abbrev pub after : {A B : Type 0} → List Effect → Ending A → (A → Run B) → Run B
after es (done a) f = let r = f a in record { effects = es ++ r.effects; ending = r.ending }
after es (raised x) f = record { effects = es; ending = raised x }
after es waiting f = record { effects = es; ending = waiting }

infixr 5 ◌>>◌
abbrev pub ◌>>◌ : {B : Type 0} → Run (Unit {0}) → Run B → Run B
m >> k = after m.effects m.ending (λ _. k)

abbrev pub finish : {A : Type 0} → List Effect → Ending A → Run Unit → Run A
finish es waiting k = record { effects = es; ending = waiting }
finish es (done a) k = after es (done tt) (λ _. k >> pure a)
finish es (raised x) k = after es (done tt) (λ _. k >> raise x)

-- `try: m` / `finally: k`: an exception of `k` takes the place of that of `m`.
abbrev pub try_finally : {A : Type 0} → Run A → Run Unit → Run A
try_finally m k = finish m.effects m.ending k
