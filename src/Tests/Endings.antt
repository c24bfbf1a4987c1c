-- ===== src/Tests/Endings.antt =====
-- An endpoint that is closed twice, with a notification before, between and after.
use tuna.Closing.{
  new_on_connect, receive, try_send, close_on_connect, Endpoint, close_all, close_chan,
  close_endpoint, EndEvent, close, add_conn, notify, notify_endpoint, end_step, end_run,
}
use tuna.Closing.Once.{IsSettled, StaysClosed, end_run-IsSettled}
use tuna.Common.{◌≡◌, refl, true, false, some, List, [], ◌∷◌, arith}

abbrev started : Endpoint
started = record {
  is_closed = false;
  close_chan_closed = false;
  udp_close_chan_closed = false;
  conns = [];
  on_connect = new_on_connect 1 false;
}

abbrev events : List EndEvent
events = add_conn ∷ notify ∷ notify ∷ close ∷ notify ∷ add_conn ∷ close ∷ []

events-closed :
    end_run events started
    ≡ some (record {
      is_closed = true;
      close_chan_closed = true;
      udp_close_chan_closed = true;
      conns = true ∷ false ∷ [];
      on_connect = record (new_on_connect 1 false) {
        elements = 1;
        chan_closed = true;
        is_closed = true;
      };
    })
unfolding end_run end_step close_endpoint close_chan close_all close_on_connect notify_endpoint
    receive try_send new_on_connect
events-closed = refl

started-IsSettled : IsSettled started
unfolding new_on_connect
started-IsSettled = (refl, refl, refl, refl, omega arith)

end_run-IsSettled_example :
    (e' : Endpoint) × (end_run events started ≡ some e') × IsSettled e' × StaysClosed started e'
end_run-IsSettled_example = end_run-IsSettled events started started-IsSettled

abbrev busy : Endpoint
busy = record started { conns = false ∷ false ∷ [] }
