-- ===== src/Wa/Pairing.antt =====
-- internal/wa/admin_ops.go and pair_observe.go: the pairing session, the goroutine that feeds it, and
-- the administrator's operations. What the WhatsApp library and the file system answer is an argument.
pub mod Flow
pub mod Operations
pub mod Waiting
use whatsapp_mcp_docker.Base.{
  ℕ, ◌+◌, ◌%◌, ◌^◌, String, Bool, true, false, not, Option, none, some, List, [], ◌∷◌, ◌++◌, str_eq,
  if◌then◌else◌,
}
use whatsapp_mcp_docker.Wa.Events.{State, EventType, plain}
use whatsapp_mcp_docker.Wa.Client.{Client, Call, fanout}

-- `unset` is the empty type of the zero value: no event yet.
pub data PairEventType : Type 0 where
  unset code success timeout error client_outdated scanned_without_multidevice : PairEventType

pub record PairEvent : Type 0 where
  pub event_type : PairEventType
  pub payload : String
  pub timeout_ms : ℕ
  pub message : String

abbrev pub is_terminal : PairEventType → Bool
is_terminal PairEventType.unset = false
is_terminal PairEventType.code = false
is_terminal _ = true

-- An item of the library's QR channel; its timeout in milliseconds.
pub record QrItem : Type 0 where
  pub event : String
  pub payload : String
  pub timeout_ms : ℕ
  pub failure : Option String

abbrev pub bare : PairEventType → PairEvent
bare t = record { event_type = t; payload = ""; timeout_ms = 0; message = "" }

abbrev message_or : String → Option String → String
message_or default none = default
message_or default (some m) = m

-- `qr_code` and `qr_error` are the library's names of its code and error events.
unfoldable pub to_pair_event : String → String → QrItem → PairEvent
to_pair_event qr_code qr_error item =
    if str_eq item.event qr_code
    then record (bare PairEventType.code) { payload = item.payload; timeout_ms = item.timeout_ms }
    else if str_eq item.event "success"
    then bare PairEventType.success
    else if str_eq item.event "timeout"
    then bare PairEventType.timeout
    else if str_eq item.event "err-client-outdated"
    then bare PairEventType.client_outdated
    else if str_eq item.event "err-scanned-without-multidevice"
    then bare PairEventType.scanned_without_multidevice
    else if str_eq item.event qr_error
    then record (bare PairEventType.error) { message = message_or "" item.failure }
    else record (bare PairEventType.error) { message = message_or item.event item.failure }

-- `out` is what the consumer's channel was sent.
pub record Session : Type 0 where
  pub obs_latest : PairEvent
  pub obs_seq : ℕ  -- uint64
  pub obs_done : Bool
  pub out : List PairEvent

abbrev pub new_session : Session
new_session = record {
  obs_latest = bare PairEventType.unset;
  obs_seq = 0;
  obs_done = false;
  out = [];
}

unfoldable pub publish : PairEvent → Session → Session
publish evt s = record s { obs_latest = evt; obs_seq = (s.obs_seq + 1) % 2 ^ 64 }

unfoldable pub mark_done : Session → Session
mark_done s = record s { obs_done = true }

-- What the goroutine meets: an item, with whether the send to the consumer came before the
-- cancellation, or the end (the channel was closed or the flow cancelled).
pub data Input : Type 0 where
  item : QrItem → Bool → Input
  ended : Input

abbrev pub forward : PairEvent → Session → Session
forward evt s = record s { out = s.out ++ evt ∷ [] }

-- The goroutine of `StartPairing`, over what it meets.
unfoldable pub flow : (QrItem → PairEvent) → List Input → Session → Session
flow convert [] s = s
flow convert (ended ∷ rest) s = mark_done s
flow convert (item q false ∷ rest) s = mark_done (publish (convert q) s)
flow convert (item q true ∷ rest) s =
    let s' = forward (convert q) (publish (convert q) s) in
    let others = flow convert rest s' in
    if is_terminal (convert q).event_type then mark_done s' else others

-- The client with its pairing session, `os_name` the name that the phone shows.
pub record Admin : Type 0 where
  pub client : Client
  pub pairing : Option Session
  pub pair_device_name : String
  pub os_name : String

abbrev pub is_active : Option Session → Bool
is_active none = false
is_active (some s) = not s.obs_done

abbrev pub is_paired : Option String → Bool
is_paired none = false
is_paired (some id) = true

pub data StartResult : Type 0 where
  err_pair_in_progress err_already_paired err_qr_channel err_connect started : StartResult

abbrev pub connecting_client : Client → Client
connecting_client c = record c {
  stop_reconnect = false;
  state = State.connecting;
  calls = c.calls ++ Call.dial ∷ [];
}

abbrev pub effective_name : Admin → String → String
effective_name a device_name = if str_eq device_name "" then a.pair_device_name else device_name

-- `got_channel` and `connected` say whether GetQRChannel and Connect succeed.
unfoldable pub start_pairing : String → Bool → Bool → Admin → Admin × StartResult
start_pairing device_name got_channel connected a =
    if is_active a.pairing
    then (a, err_pair_in_progress)
    else if is_paired a.client.device_id
    then (a, err_already_paired)
    else if not got_channel
    then (record a { os_name = effective_name a device_name }, err_qr_channel)
    else if not connected
    then (
      record a { os_name = effective_name a device_name; client = connecting_client a.client },
      err_connect,
    )
    else (
      record a {
        os_name = effective_name a device_name;
        client = connecting_client a.client;
        pairing = some new_session;
      },
      started,
    )

pub data PhoneResult : Type 0 where
  err_not_pairing err_already_paired err_library : PhoneResult
  linking_code : String → PhoneResult

abbrev pub phone_answer : Option String → PhoneResult
phone_answer none = PhoneResult.err_library
phone_answer (some c) = PhoneResult.linking_code c

-- `answer` is what the library's PairPhone returns.
unfoldable pub pair_phone : Option String → Admin → PhoneResult
pair_phone answer a =
    if not (is_active a.pairing)
    then PhoneResult.err_not_pairing
    else if is_paired a.client.device_id
    then PhoneResult.err_already_paired
    else phone_answer answer

-- How the wait for a cancelled flow ends.
pub data FlowExit : Type 0 where
  exited timed_out context_done : FlowExit

-- What the library and the file system do in an `Unpair`; `reopened` is the outcome of
-- `openWhatsmeow`: nothing, or the device that is found.
pub record UnpairWorld : Type 0 where
  pub exit : FlowExit
  pub logged_in : Bool
  pub removed : Bool
  pub reopened : Option (Option String)
  pub now : ℕ

pub data UnpairResult : Type 0 where
  err_context err_remove err_open unpaired : UnpairResult

abbrev pub cancelled_by_context : Option Session → FlowExit → Bool
cancelled_by_context (some s) FlowExit.context_done = true
cancelled_by_context _ _ = false

abbrev pub logout_calls : Option String → Bool → List Call
logout_calls (some id) true = Call.log_out ∷ []
logout_calls _ _ = []

-- The client once the old socket is torn down.
abbrev pub torn_down : UnpairWorld → Client → Client
torn_down w c = record c {
  stop_reconnect = true;
  calls =
      c.calls ++ (logout_calls c.device_id w.logged_in ++ Call.remove_handler ∷ Call.hang_up ∷ []);
}

-- The end of `Unpair`: the fresh client, and the event that tells the subscribers.
abbrev pub reset : ℕ → Option String → Client → Option Client
reset now device c = fanout (plain EventType.disconnected now) (record c {
  device_id = device;
  stop_reconnect = false;
  state = State.not_paired;
  last_event = none;
})

abbrev pub finish_unpair : Admin → Option Client → Option (Admin × UnpairResult)
finish_unpair a none = none
finish_unpair a (some c) = some (record a { client = c }, unpaired)

abbrev pub reopen : UnpairWorld → Option (Option String) → Admin → Option (Admin × UnpairResult)
reopen w none a = some (a, err_open)
reopen w (some device) a = finish_unpair a (reset w.now device a.client)

-- `none` is a panic of the fan-out.
unfoldable pub unpair : UnpairWorld → Admin → Option (Admin × UnpairResult)
unpair w a =
    if cancelled_by_context a.pairing w.exit
    then some (a, err_context)
    else let b = record a { pairing = none; client = torn_down w a.client } in
      if not w.removed then some (b, err_remove) else reopen w w.reopened b

unfoldable pub pair_latest : Option Session → Option PairEvent
pair_latest none = none
pair_latest (some s) = some s.obs_latest
