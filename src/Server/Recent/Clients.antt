-- ===== src/Server/Recent/Clients.antt =====
-- packages/server/src/clients/RecentClients.js: the clients that were seen last. The `Map` is the list
-- of its entries, the oldest first.
pub mod Order
mod Tests
use mathlib.Core.List.{reverse}
use wardx.Prelude.{if◌then◌else◌, ℕ, max, String, List, [], ◌∷◌, ◌++◌, ◌==◌}
use wardx.Server.Recent.Shift.{shift_to}

pub record Client : Type 0 where
  pub instance_id : String
  pub role : String
  pub app_version : String
  pub platform : String
  pub os : String
  pub environment : String

pub record Seen : Type 0 where
  pub client : Client
  pub last_seen : ℕ

pub record RecentClients : Type 0 where
  pub max : ℕ
  pub by_id : List Seen

pub create : ℕ → RecentClients
create max = record { max = max; by_id = [] }

-- `this.byId.delete(instanceId)`
pub remove : String → List Seen → List Seen
remove id [] = []
remove id (e ∷ entries) =
    if e.client.instance_id == id then remove id entries else e ∷ remove id entries

-- `touch`, with the reading of the clock.
pub touch : ℕ → Client → RecentClients → RecentClients
touch now client s = record s {
  by_id =
      shift_to s.max
        (remove client.instance_id s.by_id ++ record { client = client; last_seen = now } ∷ []);
}

-- `list`
pub list_clients : RecentClients → List Seen
list_clients s = reverse s.by_id
