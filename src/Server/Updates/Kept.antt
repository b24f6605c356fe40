-- ===== src/Server/Updates/Kept.antt =====
-- Each update of a container is taken by its server, or goes to the manager to be kept for later.
use swiftacular.Base.{
  ◌≡◌, refl, ◌⊎◌, inl, inr, Bool, true, false, ◌||◌, Option, none, some, List, [], ◌∷◌, ◌++◌, map,
  String, str_eq, Result, ok, arith, ap, Bool-cases, Option-cases, ◌==◌, if◌then◌else◌, or_else,
  is_some, Dict, rsplit, zip, all,
}
use swiftacular.Server.Updates.{
  Answer, failed, answered, Sent, Pending, Event, sent, saved, Update, Remote, Cause, Place, given,
  redirect_of, deliver, pending, pickle_async_update, request_of, after_answer, send, async_update,
  update_for, conthosts, contdevices,
}

abbrev pub has_port : String → Bool
has_port host = str_eq host "" || is_some (rsplit ":" host)

module _ (remote : Remote) where
  abbrev pub is_taken : Answer → Bool
  is_taken failed = false
  is_taken (answered status redirect) = remote.is_success status

  -- The container server has answered the update with success.
  abbrev pub IsTaken : Update → List Event → Type 0
  IsTaken u events =
      (s : Sent) × (events ≡ sent s ∷ [])
      × (is_taken (remote.answer s) ≡ true)
      × (s.op ≡ u.op)
      × (rsplit ":" (or_else "" u.host) ≡ some (s.ip, s.port))

  -- The update is kept in a pending file, or in none where the policy is BlueStore's.
  abbrev pub IsSaved : Update → List Event → Type 0
  IsSaved u events =
      (before : List Event) × (p : Pending) × (events
        ≡ before ++ (if remote.is_bluestore u.policy then [] else saved p ∷ []))
      × (p.op ≡ u.op)
      × (p.account ≡ u.account)
      × (p.container ≡ u.container)
      × (p.obj ≡ u.obj)
      × (p.objdevice ≡ u.objdevice)

  abbrev pub IsKept : Update → List Event → Type 0
  IsKept u events = IsTaken u events ⊎ IsSaved u events

  IsKept-later : (u : Update) → IsKept u (pickle_async_update remote (pending remote u none))
  IsKept-later u = inr ([], pending remote u none, refl, refl, refl, refl, refl, refl)

  IsKept-answer :
      (u : Update) (s : Sent) (a : Answer)
      → remote.answer s ≡ a
      → s.op ≡ u.op
      → rsplit ":" (or_else "" u.host) ≡ some (s.ip, s.port)
      → IsKept u (sent s ∷ after_answer remote u a)
  unfolding after_answer
  IsKept-answer u s failed e o h =
      inr (sent s ∷ [], pending remote u none, refl, refl, refl, refl, refl, refl)
  IsKept-answer u s (answered status redirect) e o h =
      elim (Bool-cases (remote.is_success status)) [
        | inl taken ↦ rw taken (inl (s, refl, rw e taken, o, h))
        | inr refused ↦ rw refused (
            inr (
              sent s ∷ [],
              pending remote u (if status == 301 then redirect_of remote redirect else none),
              refl,
              refl,
              refl,
              refl,
              refl,
              refl,
            ))
      ]

  abbrev pub IsTold : Update → Result (List Event) → Type 0
  IsTold u thread = (events : List Event) × (thread ≡ ok events) × IsKept u events

  given-some :
      (o : Option String) (text : String)
      → given o ≡ some text
      → (or_else "" o ≡ text) × (str_eq text "" ≡ false)
  given-some none text e = absurd (ground arith)
  given-some (some t) text e = elim (Bool-cases (str_eq t "")) [
    | inl empty ↦ absurd (ground arith)
    | inr full ↦ ground arith
  ]

  address_of :
      (host : String)
      → str_eq host "" ≡ false
      → has_port host ≡ true
      → (address : String × String) × (rsplit ":" host ≡ some address)
  address_of host full h = elim (Option-cases (rsplit ":" host)) [
    | inl nothing ↦ absurd (ground (arith, ap is_some nothing))
    | inr found ↦ found
  ]

  IsTold-deliver :
      (u : Update) (host partition contdevice : Option String)
      → given u.host ≡ host
      → has_port (or_else "" u.host) ≡ true
      → IsTold u (deliver remote u host partition contdevice)
  unfolding deliver
  IsTold-deliver u none partition contdevice e h = (_, refl, IsKept-later u)
  IsTold-deliver u (some host) none contdevice e h = (_, refl, IsKept-later u)
  IsTold-deliver u (some host) (some partition) none e h = (_, refl, IsKept-later u)
  IsTold-deliver u (some host) (some partition) (some contdevice) e h =
      let (named, full) = given-some u.host host e in
      let (address, at) = address_of host full (rw named at h) in
      let s = request_of remote u address partition contdevice in
      (
        send remote u s,
        rw at refl,
        IsKept-answer u s (remote.answer s) refl refl (rw (named, at) refl),
      )

  pub IsTold-async_update :
      (u : Update) → has_port (or_else "" u.host) ≡ true → IsTold u (async_update remote u)
  unfolding async_update
  IsTold-async_update u h =
      IsTold-deliver u (given u.host) (given u.partition) (given u.contdevice) refl h

  -- Of each update and its thread.
  abbrev pub AllTold : List Update → List (Result (List Event)) → Type 0
  AllTold [] [] = Unit
  AllTold [] (thread ∷ threads) = ⊥
  AllTold (u ∷ us) [] = ⊥
  AllTold (u ∷ us) (thread ∷ threads) = IsTold u thread × AllTold us threads

  abbrev pub is_addressed : Update → Bool
  is_addressed u = has_port (or_else "" u.host)

  pub AllTold-async_update :
      (us : List Update) → all is_addressed us ≡ true → AllTold us (map (async_update remote) us)
  AllTold-async_update [] h = tt
  AllTold-async_update (u ∷ us) h =
      (IsTold-async_update u (ground arith), AllTold-async_update us (ground arith))

  module _ (op : String) (cause : Cause) (place : Place) (headers_out : Dict String) where
    -- An update for each pair of a host and a device.
    abbrev pub addressed : String → List Update
    addressed partition =
        map (update_for remote op cause place headers_out (some partition))
          (zip (conthosts remote cause.headers) (contdevices remote cause.headers))
