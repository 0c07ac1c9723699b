-- ===== src/Manager/Rest.antt =====
-- `APPContainerManagerRequestHandler` of comnetsemu/net.py. A request is its path with what the
-- server read of it; the answer is the status that the client sees, or the exception in the handler.
use Prim.Native.Char.{code}
use comnetsemu.Prelude.{ℕ, String, Bool, true, false, Option, none, some, List, [], ◌∷◌}
use comnetsemu.Prelude.{length, ◌++◌, if◌then◌else◌, ◌&&◌, ◌||◌, ◌==◌, nat_eq, string_eq, is_some}
use comnetsemu.Manager.Data.{AppContainer, DockerArgs, Result, ok, Error}
use comnetsemu.Manager.Docker.{Docker}
use comnetsemu.Manager.State.{
  Manager, ◌>>=◌, ◌>>◌, pure, raise, or_raise, get_container_instance, get_all_containers,
}
use comnetsemu.Manager.Container.{add_container, remove_container}

-- The JSON object of a request body, by its keys; `none` is a key that is not there. Only bodies are modelled whose first
-- four values are texts, whose `docker_args` is an object or null, which is `some none`, and whose `wait` is a Boolean.
pub record Body : Type 0 where
  pub name : Option String
  pub dhost : Option String
  pub dimage : Option String
  pub dcmd : Option String
  pub docker_args : Option (Option DockerArgs)
  pub wait : Option Bool
  -- It has a key that is no parameter of `addContainer`.
  pub has_others : Bool

pub record Response : Type 0 where
  pub status : ℕ
  pub body : List String

-- What `_post_sanity_check` and `addContainer(**container_para)` see: `none` is a body that
-- `json.loads` refuses.
pub data Request : Type 0 where
  get : String → Request
  post : String → ℕ → Option Body → Request
  delete : String → Request

abbrev pub container_resource_path : String
container_resource_path = "/containers"

abbrev pub ok_response : Response
ok_response = record { status = 200; body = [] }

-- `_send_bad_request`
abbrev pub bad_request : Response
bad_request = record { status = 400; body = [] }

-- `os.path.split`: the part up to the last slash, and the rest.
unfoldable pub has_slash : String → Bool
has_slash String.[] = false
has_slash (String.◌∷◌ c s) = (code c == b'/') || has_slash s

unfoldable pub split_last : String → String × String
unfolding has_slash
split_last String.[] = (String.[], String.[])
split_last (String.◌∷◌ c s) =
    let (h, t) = split_last s in
    if has_slash s
    then (String.◌∷◌ c h, t)
    else (if code c == b'/' then (String.◌∷◌ c String.[], s) else (String.[], String.◌∷◌ c s))

unfoldable pub all_slashes : String → Bool
all_slashes String.[] = true
all_slashes (String.◌∷◌ c s) = (code c == b'/') && all_slashes s

-- `head.rstrip("/")`
unfoldable pub strip_slashes : String → String
unfolding all_slashes
strip_slashes String.[] = String.[]
strip_slashes (String.◌∷◌ c s) =
    if (code c == b'/') && all_slashes s then String.[] else String.◌∷◌ c (strip_slashes s)

unfoldable pub path_split : String → String × String
unfolding split_last all_slashes strip_slashes
path_split p = let (h, t) = split_last p in (if all_slashes h then h else strip_slashes h, t)

-- `_post_sanity_check`
unfoldable pub post_sanity_check : Body → Bool
post_sanity_check b =
    is_some b.name && is_some b.dhost && is_some b.dimage && is_some b.dcmd && is_some b.docker_args

-- `docker_args` of the body as a new dict object; without the key, or with null, it is None.
unfoldable pub store_args :
    {I W : Type 0} → Option (Option DockerArgs) → Manager I W → Result (Option ℕ) × Manager I W
store_args none s = (ok none, s)
store_args (some none) s = (ok none, s)
store_args (some (some args)) s =
    (ok (some (length s.dicts)), record s { dicts = s.dicts ++ args ∷ [] })

abbrev or_true : Option Bool → Bool
or_true none = true
or_true (some b) = b

module _ {I W : Type 0} (d : Docker I W) (fuel : ℕ) where
  -- `do_GET`
  unfoldable pub do_get : String → Manager I W → Result Response × Manager I W
  unfolding get_all_containers
  do_get path =
      if path == container_resource_path
      then (do all ← get_all_containers; pure (record { status = 200; body = all }))
      else pure bad_request

  -- `self.mgr.addContainer(**container_para)`, which raises TypeError for a key that is no parameter and for a
  -- parameter without a default that is missing.
  unfoldable pub add_from_body : Body → Manager I W → Result (AppContainer I) × Manager I W
  unfolding store_args add_container
  add_from_body para = do
    (if para.has_others then raise Error.type_error else pure tt)
    name ← or_raise para.name Error.type_error
    dhost ← or_raise para.dhost Error.type_error
    dimage ← or_raise para.dimage Error.type_error
    dcmd ← or_raise para.dcmd Error.type_error
    ref ← store_args para.docker_args
    add_container d fuel name dhost dimage dcmd ref (or_true para.wait)

  -- `do_POST`
  unfoldable pub do_post : String → ℕ → Option Body → Manager I W → Result Response × Manager I W
  unfolding post_sanity_check add_from_body
  do_post path content_length body =
      if path == container_resource_path
      then (if content_length == 0 then pure bad_request else (do
        para ← or_raise body Error.value_error
        (if post_sanity_check para
            then (do add_from_body para; pure ok_response)
            else pure bad_request)))
      else pure bad_request

  -- `_delete_sanity_check`
  unfoldable pub delete_sanity_check : String → Manager I W → Result Bool × Manager I W
  unfolding get_container_instance
  delete_sanity_check name = do c ← get_container_instance name none; pure (is_some c)

  -- `do_DELETE`. The lock is free between the check and the removal.
  unfoldable pub do_delete : String → Manager I W → Result Response × Manager I W
  unfolding path_split delete_sanity_check remove_container
  do_delete path =
      let (head, container_name) = path_split path in
      if head == container_resource_path
      then (do
        there ← delete_sanity_check container_name
        (if there
            then (do remove_container d fuel container_name true; pure ok_response)
            else pure bad_request))
      else pure bad_request

  unfoldable pub handle : Request → Manager I W → Result Response × Manager I W
  unfolding do_get do_post do_delete
  handle (get path) = do_get path
  handle (post path content_length body) = do_post path content_length body
  handle (delete path) = do_delete path
