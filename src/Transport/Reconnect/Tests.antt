-- ===== src/Transport/Reconnect/Tests.antt =====
-- A connection that is lost.
use onlytwo.Base.{◌≤◌, ◌≡◌, refl, false, List, [], ◌∷◌, arith, true}
use onlytwo.Config.Table.{balanced_profile}
use onlytwo.Config.Profile.{TransportProfile}
use onlytwo.Transport.Reconnect.{
  Connection, connected, failed, new_connection, Event, connects, opens, closes, fires, errs, run,
}
use onlytwo.Transport.Reconnect.Limit.{failed_rounds, attempts_limited, gives_up}

-- Two reconnects at most.
abbrev brief_profile : TransportProfile
brief_profile = record balanced_profile {
  reconnect = record balanced_profile.reconnect { max_attempts = 2 };
}

abbrev lost : List (Event brief_profile)
lost = connects ∷ opens 1 ∷ closes 1 false ∷ fires ∷ errs 2 ∷ []

attempts_limited_example : (run brief_profile new_connection lost).reconnect_attempts ≤ 2
attempts_limited_example = attempts_limited brief_profile lost

abbrev open_connection : Connection
open_connection = record {
  status = connected;
  epoch = 1;
  reconnect_attempts = 0;
  intentional_close = false;
  is_opened = true;
  is_settled = true;
  is_reconnecting = false;
}

gives_up_example : (failed_rounds brief_profile 3 open_connection).status ≡ failed
gives_up_example = gives_up brief_profile 2 open_connection refl (omega arith)
