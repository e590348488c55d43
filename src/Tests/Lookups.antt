-- ===== src/Tests/Lookups.antt =====
-- A whole lookup, the address that is asked, and the copy of headers.
use sope_appserver.Config.{Config, create_dir_config, set_sns_port}
use sope_appserver.Handler.Copy.Laws.{IsTable, last_value, copy_headers-last_value}
use sope_appserver.Handler.Copy.{copy_headers}
use sope_appserver.Prelude.{
  strtol, ℕ, ◌+◌, ◌-◌, ◌≡◌, refl, true, none, some, [], ◌∷◌, ◌++◌, arith, length, codes,
}
use sope_appserver.Sns.Address.Ports.{sns_address-set_sns_port}
use sope_appserver.Sns.Address.{unix, inet, low_16, sns_address}
use sope_appserver.Sns.Lookup.Balance.{IsCounted, Leaves, send_sns_query-Leaves}
use sope_appserver.Sns.Lookup.{Plug, send_sns_query}
use sope_appserver.Socket.{ended, accepted}
use sope_appserver.Tests.Answering.{blank}
use sope_appserver.Tests.Tables.{Entries, enter, entry_of, same}

-- A name server that closes the connection at once; the state counts the open descriptors.
abbrev counting : Plug ℕ
counting = record {
  open_socket = λ domain n. (true, n + 1);
  connect = λ a n. (true, n);
  sock = record {
    read = λ len n. (ended, n);
    write = λ bs n. (accepted (length bs), n);
    close = λ n. n - 1;
  };
}

counting-IsCounted : IsCounted counting (λ n. n)
counting-IsCounted = record {
  opens = λ domain n. refl;
  closes = λ n. refl;
  connects = λ a n. refl;
  reads = λ len n. refl;
  writes = λ bs n. refl;
}

abbrev cfg : Config
cfg = set_sns_port create_dir_config (codes "/tmp/snsd")

send_sns_query-Leaves_example :
    Leaves
      (λ n. n)
      3
      (send_sns_query counting true (λ s. 7) (some (codes "GET /")) none (codes "app") cfg 3)
send_sns_query-Leaves_example =
    send_sns_query-Leaves counting (λ n. n) (λ s. 7) cfg (some (codes "GET /")) none (codes "app") 3
      counting-IsCounted

sns_address-set_sns_port_example :
    (sns_address (λ s. 7) (set_sns_port create_dir_config (b'/' ∷ codes "tmp"))
      ≡ some (unix (b'/' ∷ codes "tmp")))
    × (sns_address
          (λ s. 7)
          (set_sns_port create_dir_config ((b'h' ∷ codes "ost") ++ b':' ∷ codes "80"))
        ≡ some (inet 7 (low_16 (strtol (codes "80")))))
sns_address-set_sns_port_example =
    sns_address-set_sns_port (λ s. 7) create_dir_config (codes "tmp") b'h' (codes "ost")
      (codes "80") (omega arith) refl (refl, (refl, (refl, (refl, tt)))) (omega arith)

entries-IsTable : IsTable same entry_of enter
entries-IsTable = record { get-set = λ t key val k. refl }

abbrev sent_headers : Entries
sent_headers = (codes "a", codes "1") ∷ (codes "b", codes "2") ∷ (codes "a", codes "3") ∷ []

copy_headers-last_value_example :
    entry_of
      (copy_headers entry_of (λ t. t) enter (some sent_headers) blank).headers_out
      (codes "a")
    ≡ last_value same sent_headers (codes "a") none
copy_headers-last_value_example =
    copy_headers-last_value same entry_of (λ t. t) enter entries-IsTable sent_headers blank
      (codes "a")
