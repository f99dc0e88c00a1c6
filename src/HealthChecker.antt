-- ===== src/HealthChecker.antt =====
-- health_checker.py: `_probe`, and one sweep of `HealthChecker._run` over any router.
pub mod Sweep
pub mod Thread
use l7_load_balancer.Prelude.{ℕ, ◌+◌, List, [], ◌∷◌, ◌++◌, Bool, true, false, if◌then◌else◌}
use l7_load_balancer.Backend.{Backend}
use l7_load_balancer.Bytes.{Bytes, codes, starts_with}
use l7_load_balancer.Bytes.Number.{str_int}
use l7_load_balancer.Http.{line_delim}
use l7_load_balancer.Router.Routing.{Routing}

-- What the sockets gave one probe: an `OSError` on the way, which the probe catches, or what `recv`
-- returned. Any other exception, such as the `UnicodeError` of a malformed host, ends the thread, and is
-- no answer here.
pub data Answer : Type 0 where
  os_error : Answer
  answered : Bytes → Answer

-- What a probe sends.
unfoldable pub probe_request : Backend → Bytes → Bytes
probe_request backend path =
    codes "GET "
    ++ (path
        ++ (codes " HTTP/1.1"
            ++ (line_delim
                ++ (codes "Host: "
                    ++ (backend.host
                        ++ (b':'
                            ∷ (str_int backend.port
                                ++ (line_delim
                                    ++ (codes "Connection: close"
                                        ++ (line_delim ++ line_delim))))))))))

-- Whether the backend counts as healthy.
unfoldable pub probe : Answer → Bool
probe os_error = false
probe (answered bytes) = starts_with (codes "HTTP/") bytes

module _ (routing : Routing) where
  open routing use {Router, mark_healthy, mark_unhealthy, get_all_backends}

  unfoldable pub check : Backend → Answer → Router → Router
  check backend answer r = if probe answer then mark_healthy r backend else mark_unhealthy r backend

  -- The loop over the backends; `net` gives the answers in the order of the probes.
  unfoldable pub sweep_from : (ℕ → Answer) → ℕ → List Backend → Router → Router
  sweep_from net n [] r = r
  sweep_from net n (b ∷ bs) r = sweep_from net (n + 1) bs (check b (net n) r)

  unfoldable pub sweep : (ℕ → Answer) → Router → Router
  sweep net r = sweep_from net 0 (get_all_backends r) r
