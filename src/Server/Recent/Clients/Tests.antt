-- ===== src/Server/Recent/Clients/Tests.antt =====
-- Two places, and a client that comes back.
use wardx.Prelude.{length, take, ℕ, ◌≤◌, String, ◌≡◌, refl, ◌∙◌, [], ◌∷◌}
use wardx.Server.Recent.Clients.{Client, Seen, RecentClients, touch, remove, list_clients}
use wardx.Server.Recent.Clients.Order.{OthersOnly, list_clients-touch}

abbrev client : String → Client
client id = record {
  instance_id = id;
  role = "web";
  app_version = "1";
  platform = "node";
  os = "linux";
  environment = "test";
}

abbrev seen : String → ℕ → Seen
seen id now = record { client = client id; last_seen = now }

abbrev two : RecentClients
two = record { max = 2; by_id = seen "a" 1 ∷ seen "b" 2 ∷ [] }

back_again : list_clients (touch 3 (client "a") two) ≡ seen "a" 3 ∷ seen "b" 2 ∷ []
unfolding list_clients
back_again = (list_clients-touch 3 (client "a") two).0 ∙ (unfold remove in refl)

list_clients-touch_example :
    (list_clients (touch 3 (client "a") two) ≡ take 2 (seen "a" 3 ∷ remove "a" (list_clients two)))
    × OthersOnly "a" (remove "a" (list_clients two))
    × (length (touch 3 (client "a") two).by_id ≤ 2)
list_clients-touch_example = list_clients-touch 3 (client "a") two
