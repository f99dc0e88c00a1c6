-- ===== src/Tests/Play.antt =====
-- A run of a connection on a least-connections router; a test that unfolds it can compute.
use l7_load_balancer.Prelude.{List, Option, ◌+ℤ◌}
use native.Mathlib.Decide.{ℕ_discrete}
use l7_load_balancer.Backend.{Backend-discrete, backend_leb}
use l7_load_balancer.Bytes.{
  Bytes-discrete, is, starts_with, find, clip, slice, find_from, partition, split_max, split_go,
  split, is_space, lstrip, strip, lower, upper,
}
use l7_load_balancer.Bytes.Number.{digit_value, digits, magnitude, negate, int, str, str_int}
use l7_load_balancer.Connection.Connect.{
  is_idempotent, can_retry, in_progress, add_tried, reset_for, give_up, open_socket, escape,
  after_connect, initiate_with, retry_with, fail_with, fail_on, fail_backend,
  initiate_backend_connect,
}
use l7_load_balancer.Connection.Deadline.{timeout_for_state, refresh_by, refresh_deadline, init}
use l7_load_balancer.Connection.Events.{handle, run}
use l7_load_balancer.Connection.Finish.{
  error_body, error_response, notify, finish, tell, send_error, expire, handle_timeout,
}
use l7_load_balancer.Connection.Handlers.{
  note_status, note_headers, header_len, body_at_end, prepare_relay, relay_framed, settle_sized,
  settle, take_response, dispatch_request, accept_request, accept_parsed, take_request,
  client_readable_in, handle_client_readable, forward_request, connected, backend_writable_in,
  handle_backend_writable, end_response, backend_readable_in, handle_backend_readable, relay,
  client_writable_in, handle_client_writable,
}
use l7_load_balancer.Http.Chunked.{
  chunk_size, last_chunk_at, last_chunk, data_chunk, sized_chunk, round_at, round, scan,
  try_consume_chunked_body,
}
use l7_load_balancer.Http.Request.{
  add_header, add_headers, get_content_length, with_body, parse_lines, try_parse_request,
  find_forwarded_for, inject_forwarded_for, header_lines, serialise_request,
}
use l7_load_balancer.Http.Response.{
  parse_response_status, header_lines_of, find_header, get_response_content_length,
  is_chunked_response,
}
use l7_load_balancer.Prelude.Dict.{contains, discard, lookup, insert}
use l7_load_balancer.Prelude.Heap.{heappush, heappush_all}
use l7_load_balancer.Router.Instances.{least_connections_routing}
use l7_load_balancer.Router.LeastConnections
use l7_load_balancer.Connection.{Sys}
use l7_load_balancer.Connection.Events.{Event}

unfoldable pub play :
    List Event
    → Sys least_connections_routing.Router
    → Option (Sys least_connections_routing.Router)
unfolding ◌+ℤ◌ ℕ_discrete Backend-discrete backend_leb Bytes-discrete is starts_with find clip slice
    find_from partition split_max split_go split is_space lstrip strip lower upper digit_value
    digits magnitude negate int str str_int is_idempotent can_retry in_progress add_tried reset_for
    give_up open_socket escape after_connect initiate_with retry_with fail_with fail_on fail_backend
    initiate_backend_connect timeout_for_state refresh_by refresh_deadline init handle run
    error_body error_response notify finish tell send_error expire handle_timeout note_status
    note_headers header_len body_at_end prepare_relay relay_framed settle_sized settle take_response
    dispatch_request accept_request accept_parsed take_request client_readable_in
    handle_client_readable forward_request connected backend_writable_in handle_backend_writable
    end_response backend_readable_in handle_backend_readable relay client_writable_in
    handle_client_writable chunk_size last_chunk_at last_chunk data_chunk sized_chunk round_at round
    scan try_consume_chunked_body add_header add_headers get_content_length with_body parse_lines
    try_parse_request find_forwarded_for inject_forwarded_for header_lines serialise_request
    parse_response_status header_lines_of find_header get_response_content_length
    is_chunked_response contains discard lookup insert heappush heappush_all
    least_connections_routing LeastConnections.entry_leb LeastConnections.count_of
    LeastConnections.push LeastConnections.add LeastConnections.init LeastConnections.scan
    LeastConnections.choose LeastConnections.next_backend LeastConnections.on_disconnect
    LeastConnections.mark_unhealthy LeastConnections.set_default LeastConnections.mark_healthy
    LeastConnections.get_all_backends LeastConnections.get_healthy_backends
play = run least_connections_routing
