-- ===== src/Server/Overrides.antt =====
-- _check_container_override: which headers of a container update are replaced, and by what.
use swiftacular.Base.{
  ◌≡◌, refl, ◌∙◌, ap, Bool, true, false, Option, none, some, [], ◌∷◌, String, str_eq, if◌then◌else◌,
  Dict, insert, lookup-insert, first, lower, replace, starts_with,
}
use swiftacular.Server.Updates.{Remote, set, get}

abbrev pub backend_prefix : String
backend_prefix = "x-backend-container-update-override-"

-- The header that a key overrides.
unfoldable pub override_of : String → String → Option String
unfolding lower replace
override_of override_prefix key =
    if starts_with (lower key) override_prefix
    then some (replace override_prefix "x-" (lower key))
    else none

module _ (remote : Remote) where
  abbrev pub put_override : Option String → String → Dict String → Dict String
  put_override none val headers = headers
  put_override (some override) val headers = set remote override val headers

  unfoldable pub apply_overrides : String → Dict String → Dict String → Dict String
  unfolding override_of insert
  apply_overrides override_prefix [] headers = headers
  apply_overrides override_prefix ((key, val) ∷ items) headers =
      apply_overrides override_prefix items
        (put_override (override_of override_prefix key) val headers)

  -- The second prefix is that of the system metadata, a constant of Swift.
  unfoldable pub check_container_override :
      String → Dict String → Dict String → Dict String → Dict String
  unfolding apply_overrides
  check_container_override sysmeta_prefix update_headers metadata footers =
      apply_overrides sysmeta_prefix footers (
        apply_overrides sysmeta_prefix metadata (
          apply_overrides backend_prefix footers
            (apply_overrides backend_prefix metadata update_headers)))

  abbrev pub is_for : String → Option String → Bool
  is_for name none = false
  is_for name (some override) = str_eq (remote.title override) (remote.title name)

  -- The last of the items that overrides `name`.
  unfoldable pub override : String → String → Dict String → Option String
  override override_prefix name [] = none
  override override_prefix name ((key, val) ∷ items) =
      first (override override_prefix name items)
        (if is_for name (override_of override_prefix key) then some val else none)

  get-put_override :
      (name val : String) (o : Option String) (headers : Dict String)
      → get remote name (put_override o val headers)
        ≡ (if is_for name o then some val else get remote name headers)
  get-put_override name val none headers = refl
  get-put_override name val (some o) headers =
      lookup-insert (remote.title o) (remote.title name) val headers

  first-if :
      (o p : Option String) (val : String) (test : Bool)
      → first o (if test then some val else p) ≡ first (first o (if test then some val else none)) p
  first-if (some w) p val test = refl
  first-if none p val true = refl
  first-if none p val false = refl

  get-apply_overrides :
      (override_prefix name : String) (items headers : Dict String)
      → get remote name (apply_overrides override_prefix items headers)
        ≡ first (override override_prefix name items) (get remote name headers)
  unfolding apply_overrides override
  get-apply_overrides override_prefix name [] headers = refl
  get-apply_overrides override_prefix name ((key, val) ∷ items) headers =
      let o = override_of override_prefix key in
      get-apply_overrides override_prefix name items (put_override o val headers)
      ∙ ap (first (override override_prefix name items)) (get-put_override name val o headers)
      ∙ first-if (override override_prefix name items) (get remote name headers) val (is_for name o)

  -- After the overrides, a header has the value of the last override in the system metadata namespace
  -- of the footers, else of the metadata; without one, of the last override in the backend namespace
  -- of the footers, else of the metadata; and without any it is as it was.
  pub get-check_container_override :
      (sysmeta_prefix name : String) (update_headers metadata footers : Dict String)
      → get remote name (check_container_override sysmeta_prefix update_headers metadata footers)
        ≡ first (override sysmeta_prefix name footers) (
            first (override sysmeta_prefix name metadata) (
              first
                (override backend_prefix name footers)
                (first (override backend_prefix name metadata) (get remote name update_headers))))
  unfolding check_container_override
  get-check_container_override sysmeta_prefix name update_headers metadata footers =
      let a = apply_overrides backend_prefix metadata update_headers in
      let b = apply_overrides backend_prefix footers a in
      let c = apply_overrides sysmeta_prefix metadata b in
      get-apply_overrides sysmeta_prefix name footers c
      ∙ ap (first (override sysmeta_prefix name footers)) (
          get-apply_overrides sysmeta_prefix name metadata b
          ∙ ap (first (override sysmeta_prefix name metadata)) (
              get-apply_overrides backend_prefix name footers a
              ∙ ap (first (override backend_prefix name footers))
                  (get-apply_overrides backend_prefix name metadata update_headers)))
