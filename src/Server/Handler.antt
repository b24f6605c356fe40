-- ===== src/Server/Handler.antt =====
-- How a handler runs: it takes steps, one after the other, and then goes on, answers or raises.
use swiftacular.Base.{ℕ, Option, none, some, List, [], ◌∷◌, ◌++◌, String, Error, Dict}
use swiftacular.Server.{Response, Flow, go, stop, fail, Effect}

-- What a handler does to the queue of the expirer, to the object and to the container.
pub data Step : Type 0 where
  queue : Effect → Step
  write_metadata : Dict String → Step
  update_container : Dict String → Step
  -- of a writer
  open_writer close_writer : Step
  write_chunk : List ℕ → Step
  put : Dict String → Step
  commit : ℕ → Step
  -- a further 100-continue response
  send_continue : Step

pub data Run {ℓ} (A : Type ℓ) : Type ℓ where
  run : List Step → Flow A → Run A

abbrev pub after {ℓ} : {A : Type ℓ} → List Step → Run A → Run A
after steps (run more flow) = run (steps ++ more) flow

infixl 5 ◌>>=◌ ◌>>◌
abbrev pub ◌>>=◌ {κ ℓ} : {A : Type κ} {B : Type ℓ} → Run A → (A → Run B) → Run B
run steps (go x) >>= k = after steps (k x)
run steps (stop r) >>= k = run steps (stop r)
run steps (fail e) >>= k = run steps (fail e)

abbrev pub ◌>>◌ {ℓ} : {B : Type ℓ} → Run (Unit {0}) → Run B → Run B
step >> rest = step >>= λ done. rest

abbrev pub pure {ℓ} : {A : Type ℓ} → A → Run A
pure x = run [] (go x)

abbrev pub lift {ℓ} : {A : Type ℓ} → Flow A → Run A
lift flow = run [] flow

abbrev pub answer {ℓ} : {A : Type ℓ} → Response → Run A
answer response = run [] (stop response)

abbrev pub throw {ℓ} : {A : Type ℓ} → Error → Run A
throw e = run [] (fail e)

abbrev pub take_steps : List Step → Run (Unit {0})
take_steps steps = run steps (go tt)

-- `d[key]`
abbrev pub demand {ℓ} : {A : Type ℓ} → Error → Option A → Run A
demand e none = throw e
demand e (some x) = pure x

-- What `f` finds in the steps, in order.
abbrev pub gathered {ℓ} : {A : Type ℓ} → (Step → List A) → List Step → List A
gathered f [] = []
gathered f (step ∷ steps) = f step ++ gathered f steps

abbrev pub write_of : Step → List (Dict String)
write_of (write_metadata metadata) = metadata ∷ []
write_of _ = []

abbrev pub tell_of : Step → List (Dict String)
tell_of (update_container headers) = headers ∷ []
tell_of _ = []

abbrev pub queue_of : Step → List Effect
queue_of (queue effect) = effect ∷ []
queue_of _ = []

abbrev pub put_of : Step → List (Dict String)
put_of (put metadata) = metadata ∷ []
put_of _ = []

abbrev pub commit_of : Step → List ℕ
commit_of (commit t) = t ∷ []
commit_of _ = []

-- The bytes that are written.
abbrev pub byte_of : Step → List ℕ
byte_of (write_chunk bytes) = bytes
byte_of _ = []

abbrev pub close_of : Step → List (Unit {0})
close_of close_writer = tt ∷ []
close_of _ = []
