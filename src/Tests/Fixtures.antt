-- ===== src/Tests/Fixtures.antt =====
-- The clients, networks and states that the tests use.
use go_memcache.Base.{ℕ, true, false, [], ◌∷◌, none, some, codes}
use go_memcache.Errors.{Err, external, connection_lost}
use go_memcache.Types.{RawResponse}
use go_memcache.Options.{default_config}
use go_memcache.Client.{Client}
use go_memcache.Client.State.{answered, failed, Network, State}

abbrev pub client : Client
client = record {
  config = default_config (codes "a");
  addresses = codes "a" ∷ [];
  server_indexes = [];
}

abbrev pub degraded : Client
degraded = record client { config = record client.config { degrade = true; on_error = some 0 } }

-- The error of a connection that broke.
abbrev pub broken : Err
broken = connection_lost (external false 7)

-- Every exchange fails after so many bytes.
abbrev pub failing : ℕ → Network (Unit {0})
failing written = record {
  exchange = λ pool ctx payload stop w. (failed [] written broken, w);
  ctx_err = λ w. none;
  now = λ w. 1700000000000000000;
}

-- Every exchange is answered by the response.
abbrev pub answering : RawResponse → Network (Unit {0})
answering r = record {
  exchange = λ pool ctx payload stop w. (answered r [] 0, w);
  ctx_err = λ w. none;
  now = λ w. 1700000000000000000;
}

abbrev pub start : State (Unit {0})
start = record { world = tt; reported = []; spawned = [] }
