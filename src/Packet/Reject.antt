-- ===== src/Packet/Reject.antt =====
-- srt-protocol/src/packet/control/mod.rs: the reasons of a rejection and the steps of a handshake, as
-- the codes that stand for them. An `i32` is the integer that it stands for.
pub mod Codes
use srt_rs.Prelude.{ℕ, Option, none, some, ℤ, pos, negsuc, ◌==◌, ltb, if◌then◌else◌}

pub data CoreRejectReason : Type 0 where
  system peer resource rogue backlog ipe close version rdv_cookie bad_secret unsecure message_api
        congestion filter group timeout :
      CoreRejectReason

pub data ServerRejectReason : Type 0 where
  fallback key_not_sup filepath host_not_found bad_request unauthorized overload forbidden notfound
        bad_mode unacceptable conflict not_sup_media locked failed_depend internal_server_error
        unimplemented gateway down version no_room :
      ServerRejectReason

pub data RejectReason : Type 0 where
  core : CoreRejectReason → RejectReason
  core_unrecognized : ℤ → RejectReason
  server : ServerRejectReason → RejectReason
  server_unrecognized : ℤ → RejectReason
  user : ℤ → RejectReason

pub data ShakeType : Type 0 where
  induction waveahand conclusion agreement : ShakeType
  rejection : RejectReason → ShakeType

-- The conversions to `i32`.
unfoldable pub core_code : CoreRejectReason → ℕ
core_code CoreRejectReason.system = 1001
core_code CoreRejectReason.peer = 1002
core_code CoreRejectReason.resource = 1003
core_code CoreRejectReason.rogue = 1004
core_code CoreRejectReason.backlog = 1005
core_code CoreRejectReason.ipe = 1006
core_code CoreRejectReason.close = 1007
core_code CoreRejectReason.version = 1008
core_code CoreRejectReason.rdv_cookie = 1009
core_code CoreRejectReason.bad_secret = 1010
core_code CoreRejectReason.unsecure = 1011
core_code CoreRejectReason.message_api = 1012
core_code CoreRejectReason.congestion = 1013
core_code CoreRejectReason.filter = 1014
core_code CoreRejectReason.group = 1015
core_code CoreRejectReason.timeout = 1016

unfoldable pub server_code : ServerRejectReason → ℕ
server_code ServerRejectReason.fallback = 2000
server_code ServerRejectReason.key_not_sup = 2001
server_code ServerRejectReason.filepath = 2002
server_code ServerRejectReason.host_not_found = 2003
server_code ServerRejectReason.bad_request = 2400
server_code ServerRejectReason.unauthorized = 2401
server_code ServerRejectReason.overload = 2402
server_code ServerRejectReason.forbidden = 2403
server_code ServerRejectReason.notfound = 2404
server_code ServerRejectReason.bad_mode = 2405
server_code ServerRejectReason.unacceptable = 2406
server_code ServerRejectReason.conflict = 2409
server_code ServerRejectReason.not_sup_media = 2415
server_code ServerRejectReason.locked = 2423
server_code ServerRejectReason.failed_depend = 2424
server_code ServerRejectReason.internal_server_error = 2500
server_code ServerRejectReason.unimplemented = 2501
server_code ServerRejectReason.gateway = 2502
server_code ServerRejectReason.down = 2503
server_code ServerRejectReason.version = 2505
server_code ServerRejectReason.no_room = 2507

unfoldable pub reject_code : RejectReason → ℤ
unfolding core_code server_code
reject_code (core c) = pos (core_code c)
reject_code (core_unrecognized c) = c
reject_code (server s) = pos (server_code s)
reject_code (server_unrecognized s) = s
reject_code (user u) = u

unfoldable pub shake_code : ShakeType → ℤ
unfolding reject_code
shake_code induction = pos 1
shake_code waveahand = pos 0
shake_code conclusion = negsuc 0
shake_code agreement = negsuc 1
shake_code (rejection r) = reject_code r

-- The conversions from a number: `none` is the error, which holds the number itself.
unfoldable pub core_of : ℕ → Option CoreRejectReason
core_of value =
    if value == 1001
    then some CoreRejectReason.system
    else if value == 1002
    then some CoreRejectReason.peer
    else if value == 1003
    then some CoreRejectReason.resource
    else if value == 1004
    then some CoreRejectReason.rogue
    else if value == 1005
    then some CoreRejectReason.backlog
    else if value == 1006
    then some CoreRejectReason.ipe
    else if value == 1007
    then some CoreRejectReason.close
    else if value == 1008
    then some CoreRejectReason.version
    else if value == 1009
    then some CoreRejectReason.rdv_cookie
    else if value == 1010
    then some CoreRejectReason.bad_secret
    else if value == 1011
    then some CoreRejectReason.unsecure
    else if value == 1012
    then some CoreRejectReason.message_api
    else if value == 1013
    then some CoreRejectReason.congestion
    else if value == 1014
    then some CoreRejectReason.filter
    else if value == 1015
    then some CoreRejectReason.group
    else if value == 1016
    then some CoreRejectReason.timeout
    else none

unfoldable pub server_of : ℕ → Option ServerRejectReason
server_of value =
    if value == 2000
    then some ServerRejectReason.fallback
    else if value == 2001
    then some ServerRejectReason.key_not_sup
    else if value == 2002
    then some ServerRejectReason.filepath
    else if value == 2003
    then some ServerRejectReason.host_not_found
    else if value == 2400
    then some ServerRejectReason.bad_request
    else if value == 2401
    then some ServerRejectReason.unauthorized
    else if value == 2402
    then some ServerRejectReason.overload
    else if value == 2403
    then some ServerRejectReason.forbidden
    else if value == 2404
    then some ServerRejectReason.notfound
    else if value == 2405
    then some ServerRejectReason.bad_mode
    else if value == 2406
    then some ServerRejectReason.unacceptable
    else if value == 2409
    then some ServerRejectReason.conflict
    else if value == 2415
    then some ServerRejectReason.not_sup_media
    else if value == 2423
    then some ServerRejectReason.locked
    else if value == 2424
    then some ServerRejectReason.failed_depend
    else if value == 2500
    then some ServerRejectReason.internal_server_error
    else if value == 2501
    then some ServerRejectReason.unimplemented
    else if value == 2502
    then some ServerRejectReason.gateway
    else if value == 2503
    then some ServerRejectReason.down
    else if value == 2505
    then some ServerRejectReason.version
    else if value == 2507
    then some ServerRejectReason.no_room
    else none

abbrev pub core_or_code : ℕ → Option CoreRejectReason → RejectReason
core_or_code value none = core_unrecognized (pos value)
core_or_code value (some c) = core c

abbrev pub server_or_code : ℕ → Option ServerRejectReason → RejectReason
server_or_code value none = server_unrecognized (pos value)
server_or_code value (some s) = server s

unfoldable pub reject_of : ℤ → Option RejectReason
unfolding core_of server_of
reject_of (negsuc n) = none
reject_of (pos value) =
    if ltb value 1000
    then none
    else if ltb value 2000
    then some (core_or_code value (core_of value))
    else if ltb value 3000
    then some (server_or_code value (server_of value))
    else some (user (pos value))

-- The arms of a `match`, in the order of the source; the reason of a code is always found.
unfoldable pub shake_of : ℤ → Option ShakeType
unfolding reject_of
shake_of (negsuc n) = if n == 0 then some conclusion else if n == 1 then some agreement else none
shake_of (pos value) =
    if value == 1
    then some induction
    else if value == 0
    then some waveahand
    else elim (reject_of (pos value)) [ none ↦ none | some r ↦ some (rejection r) ]
