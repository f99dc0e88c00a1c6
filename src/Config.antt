-- ===== src/Config.antt =====
-- config.py: the tunables that the modelled code reads. Times are in milliseconds.
use l7_load_balancer.Prelude.{ℕ, ◌*◌, List, [], ◌∷◌}
use l7_load_balancer.Bytes.{Bytes, codes}

-- 10 MiB
abbrev pub max_request_size : ℕ
max_request_size = 10 * 1024 * 1024

abbrev pub connect_timeout : ℕ
connect_timeout = 5 * 1000

abbrev pub client_idle_timeout : ℕ
client_idle_timeout = 30 * 1000

abbrev pub backend_timeout : ℕ
backend_timeout = 30 * 1000

abbrev pub client_send_timeout : ℕ
client_send_timeout = 30 * 1000

abbrev pub max_backend_retries : ℕ
max_backend_retries = 2

abbrev pub idempotent_methods : List Bytes
idempotent_methods =
    codes "GET" ∷ codes "HEAD" ∷ codes "OPTIONS" ∷ codes "PUT" ∷ codes "DELETE" ∷ []
