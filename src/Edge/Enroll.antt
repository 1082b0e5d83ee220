-- ===== src/Edge/Enroll.antt =====
-- cmd/edgeproxy/main.go: how an edge node gets its token. The polling loop goes through what the ticker
-- and the context deliver, and what the console answers at each tick.
pub mod Polling
pub mod TokenFile
pub mod Approved
use myzerossl.Prelude.{
  ℕ, Bool, true, false, not, ◌&&◌, ◌||◌, List, [], ◌∷◌, ◌++◌, Option, none, some, ◌==◌,
  if◌then◌else◌, is_empty,
}
use myzerossl.Prelude.Result.{Result, ok, err, FileRead, missing, failed, contents}
use myzerossl.Text.{Text, codes, trim_space, trim_right_char}
use myzerossl.Map.{Map}
use myzerossl.Edge.Config.{apply_remote_default}

pub record RegisterRequest : Type 0 where
  pub id : Text
  pub label : Text
  pub install_token : Text

pub record InstallResponse : Type 0 where
  pub keyless_token : Text
  pub edge_config : Option (Map Text)

-- What came back for a request: no response, or its status and what decoding the body gives
pub data Fetched : Type 0 where
  unreachable : Text → Fetched
  response : ℕ → Result InstallResponse → Fetched

-- `errInstallPending` is an error of its own
pub data Install : Type 0 where
  install : InstallResponse → Install
  install_pending : Install
  install_failed : Text → Install

unfoldable pub decoded : Result InstallResponse → Install
decoded (err e) = install_failed e
decoded (ok body) =
    if is_empty body.keyless_token
    then install_failed (codes "install response missing keyless token")
    else install body

-- `fetchInstallToken`, from the answer on
unfoldable pub fetch_install_token : Fetched → Install
fetch_install_token (unreachable e) = install_failed e
fetch_install_token (response status body) =
    if status == 404
    then install_pending
    else if not (status == 200)
    then install_failed (codes "install token fetch failed: ")
    else decoded body

pub data Event : Type 0 where
  cancelled : Text → Event
  tick : Fetched → Event

-- The results of `enrollEdge`, and `polling` while it has not returned
pub data Enrollment : Type 0 where
  enrolled : Text → Text → Option (Map Text) → Enrollment
  enroll_failed : Text → Enrollment
  polling : Enrollment

-- One round of the loop: what it returns, if it does
unfoldable pub round : Text → Install → Option Enrollment
round install_token (install body) =
    if is_empty body.keyless_token
    then none
    else some (enrolled body.keyless_token install_token body.edge_config)
round install_token install_pending = none
round install_token (install_failed e) = some (enroll_failed e)

unfoldable pub on_event : Text → Event → Option Enrollment
on_event install_token (cancelled e) = some (enroll_failed e)
on_event install_token (tick fetched) = round install_token (fetch_install_token fetched)

abbrev pub or_continue : Option Enrollment → Enrollment → Enrollment
or_continue none rest = rest
or_continue (some result) rest = result

unfoldable pub poll : Text → List Event → Enrollment
poll install_token [] = polling
poll install_token (e ∷ events) = or_continue (on_event install_token e) (poll install_token events)

-- The request that registers the node; `random` is what `randomToken` draws
unfoldable pub register_body : Text → Text → Text → Text → RegisterRequest
register_body id label install_token random = record {
  id = id;
  label = if is_empty label then id else label;
  install_token = if is_empty install_token then random else install_token;
}

-- `enrollEdge`: the answer to the registration is no response or a status
unfoldable pub enroll_edge : Text → Text → Text → Text → Result ℕ → List Event → Enrollment
enroll_edge id label install_token random (err e) events = enroll_failed e
enroll_edge id label install_token random (ok status) events =
    if not (status == 202) && not (status == 409)
    then enroll_failed (codes "edge registration failed: ")
    else poll (register_body id label install_token random).install_token events

-- `reportInstallVerified`
unfoldable pub report_install_verified : Result ℕ → Result (Unit {0})
report_install_verified (err e) = err e
report_install_verified (ok status) =
    if status == 200 then ok tt else err (codes "install verification report failed: ")

unfoldable pub read_token_file : FileRead Text → Result Text
read_token_file missing = ok []
read_token_file (failed e) = err e
read_token_file (contents text) = ok (trim_space text)

-- What `writeTokenFile` writes
unfoldable pub token_file_text : Text → Text
token_file_text token = token ++ 10 ∷ []

-- The settings that `main` decides on the token by
pub record TokenSettings : Type 0 where
  pub token : Text
  pub token_file : Text
  pub register_url : Text
  pub register_id : Text
  pub register_label : Text
  pub register_token : Text
  pub keyless_url : Text

-- What `main` goes on with; `enrolled_install_token` is empty if there was no enrollment. `saved` is what
-- is to be written to the token file.
pub record Started : Type 0 where
  pub token : Text
  pub enrolled_install_token : Text
  pub keyless_url : Text
  pub saved : Option Text

pub data Start : Type 0 where
  started : Started → Start
  fatal : Text → Start
  waiting : Start

abbrev pub save : Started → Result (Unit {0}) → Start
save settled (ok u) = started settled
save settled (err e) = fatal (codes "write token file: " ++ e)

abbrev pub stored_token : TokenSettings → FileRead Text → Result Text
stored_token s file =
    if is_empty s.token && not (is_empty s.token_file) then read_token_file file else ok s.token

unfoldable pub enrolls : TokenSettings → Text → Bool
enrolls s token = is_empty token && not (is_empty s.register_url) && not (is_empty s.register_id)

-- The last argument is what writing the token file gives.
unfoldable pub after_enrollment : TokenSettings → Enrollment → Result (Unit {0}) → Start
after_enrollment s polling written = waiting
after_enrollment s (enroll_failed e) written = fatal (codes "edge enrollment failed: " ++ e)
after_enrollment s (enrolled token install_token config) written =
    let settled : Started = record {
      token = token;
      enrolled_install_token = install_token;
      keyless_url = apply_remote_default (codes "KEYLESS_URL") s.keyless_url config;
      saved = if is_empty s.token_file then none else some (token_file_text token);
    } in
    if is_empty s.token_file then started settled else save settled written

-- The part of `main` that finds the token, up to the default for the signer's URL
unfoldable pub find_token :
    TokenSettings → FileRead Text → Text → Result ℕ → List Event → Result (Unit {0}) → Start
find_token s file random registered events written = elim (stored_token s file) [
  | err e ↦ fatal (codes "read token file: " ++ e)
  | ok token ↦
      if enrolls s token
      then after_enrollment s
          (enroll_edge s.register_id s.register_label s.register_token random registered events)
          written
      else started (record {
        token = token;
        enrolled_install_token = [];
        keyless_url = s.keyless_url;
        saved = none;
      })
]
