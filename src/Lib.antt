-- ===== src/Lib.antt =====
-- Verification library of lovensepy, a Python client and control service for Lovense toys.
--
-- The service (lovensepy/services/http_api) lets browsers drive toys. A request from outside the local
-- network passes the access gate first: the gate's middleware forwards it with a signed session cookie
-- and otherwise asks for the six-digit code of the host console or the host's Allow. Behind the gate the
-- control scheduler keeps one hold per motor and merges the levels of a toy into one call of the
-- control backend. What a toy can do and the range of each function come from the toy helpers. The
-- presence hub tells the host which browsers are connected. The control backend is one or several
-- transports. One of them is direct Bluetooth (lovensepy/ble_direct): each toy has a client that turns
-- levels into lines of text and remembers where two motors stand, and the supervisor of the service
-- keeps the links up. The MQTT bridge announces the toys to Home Assistant, turns its messages into calls
-- of a control client and publishes the levels.
--
-- Parts and files, paths from the repository's root:
--   Base       shared names; Python's dict as an association list (Dict), str methods (Text), calls
--              that raise as values (Result), numbers in thousandths (Int).
--   Gate       lovensepy/services/http_api/access_gate.py and ua_labels.py. Types: the fields of
--              AccessGate, its codes and approvals. Challenge: issue_challenge, peek_code, verify.
--              Approvals: _purge_approvals, create_approval, approval_status, claim_approval. Decisions:
--              approve, deny, pending_approvals, status. Sessions: session_valid, revoke and the signed
--              cookie. Visitors: is_external_request, client_ip, _cookie. Middleware and Routes: the
--              ASGI middleware and the /auth handlers. Labels: device_label and browser_label.
--   Toys       lovensepy/_constants.py, toy_utils.py, toy_type_defaults.py, _command_utils.py.
--   Scheduler  lovensepy/services/http_api/scheduler.py. Types: the fields of ControlScheduler, its
--              asyncio tasks, the calls it makes. Snapshot: _expand_actions, _clamp_actions and
--              _apply_snapshot. Slots: _run_slot and _cancel_slot. Holds: _update_or_schedule_slot,
--              stop_feature. Sessions: track_session, extend_session, _run_session_until, the
--              cancellations. Service: schedule_function, stop_toy, stop_all, shutdown, list_tasks.
--   Presence   lovensepy/services/http_api/presence.py: connect, disconnect, touch, relay_echo,
--              snapshot_for and activity_for_path.
--   Ble        lovensepy/ble_direct and services/http_api/ble_supervisor.py. Wire: the lines of
--              uart_catalog.py and standard_compat.py. Link: the writes of BleDirectClient and its
--              memory of the motors (_write_gatt_char_resilient, send_uart_bytes,
--              silence_all_motors, _send_uart_for_clamped). Play: set_vibration and the bodies of the
--              requests. Registry and Hub: the registry of BleDirectHub and its requests.
--              Supervisor: BleSupervisor and its round. Replies: uart_replies.py.
--   Services   lovensepy/services/http_api. Composite: multi_backend.py. ToyCache: toy_cache.py.
--              Snapshot: redact_state_for_remote of snapshot.py.
--   Mqtt       lovensepy/integrations/mqtt. Topics: topics.py and the reading of a command topic.
--              Payloads and Strength: the readers of toys and events in ha_bridge.py. Discovery:
--              discovery.py. Bridge: the fields of HAMqttBridge, StateDeduper of state.py, what is
--              published. Commands: _handle_command_topic, as `receive` up to the call of the control
--              client and `returned` from its return on. Events: _handle_toy_event,
--              _on_connect, stop and _refresh_toys_and_discovery, as its guard and `toys_answered` from
--              the answer of GetToys on.
--   Socket     lovensepy/socket_api/client.py and ip_to_domain of _utils.py. Client: the fields of
--              SocketAPIClient, connect before and after the transport's answer, _handle_message, the
--              sends, disconnect. Retry: connect_with_retry, with what ends each run as an argument.
--   Lan        lovensepy/standard/lan.py. Pattern: the rule and the strengths of pattern_request, and the
--              reader of ble_direct/standard_compat.py, over lists of code points. Pinned: send_command
--              with the comparison of the certificate, and the payloads of stop, preset and raw pattern.
-- The other files of a part hold its lemmas and are named for what they show.
--
-- State and operations: a component's state is a record with the fields of the Python object, and an
-- operation is a function from the state to its answer and the next state. A list of events stands for
-- an interleaving: each event is one stretch of code that no other coroutine can enter, a stretch under
-- a toy's lock among them. A call that raises returns `err`.
--
-- Numbers: natural numbers without a bound, as in Python. Times are milliseconds of the monotonic clock
-- and levels thousandths; a float in between is not represented. The power of the supervisor's delay is
-- a quotient of natural powers, and raises where it passes the largest double. Loops are recursions over
-- a list or on the number of attempts that are left; only the retry loop of the socket client, which may
-- go on for ever, runs on fuel, and a limit of m retries needs m + 1.
--
-- Parameters: the hash functions, the address parser, the tests for a Unicode digit and the reading of
-- such digits, the answers of GetToys, the clock, the random draws, the ids of uuid4, the outcome of
-- each GATT write and of each reconnect, the backends that the composite one joins, the outcome of the
-- bridge's calls and of the comparison of a certificate, and for the bridge the reading of a number in a
-- text (where it is finite) and the printing of a JSON value are arguments. A theorem that needs more of
-- them than their type says so. That the thread of the broker's client calls the bridge no more once
-- `loop_stop` has returned is a hypothesis on the events behind the bridge's stop.
--
-- Not modelled: the radio, the GATT choice, discovery and the connecting of the Bluetooth clients,
-- playback in the background, HTTP and the clients of the server, the websocket library, the MQTT
-- library and the bridge's background loops, the launcher and tunnel processes, the routes that
-- only pass a call on, the HTML pages and the texts printed, logging, and failures of the calls
-- that the scheduler makes. A round of the supervisor is one step: what a user does while it waits
-- for a connect is left out.
pub mod Base
pub mod Gate
pub mod Toys
pub mod Mqtt
pub mod Socket
pub mod Lan
pub mod Ble
pub mod Services
pub mod Presence
pub mod Scheduler
