-- ===== src/Network/Booked.antt =====
-- A system that hands out the descriptors one after the other, and the theorem on descriptors at it.
use sizigy.Base.{ℕ, ◌+◌, ◌≡◌, refl, true, none, some, List, [], ◌∷◌, ◌==◌}
use sizigy.Network.Listen.{Os, create_and_bind, accept_connection}
use sizigy.Network.Ledger.{opened, Ledger, descriptors_lem}

-- The next descriptor, and those open.
abbrev World : Type 0
World = ℕ × List ℕ

rest_of : ℕ → List ℕ → List ℕ
rest_of fd [] = []
rest_of fd (x ∷ fds) = fds

-- Nothing can be bound to the first address.
abbrev system : Os World
system = record {
  getfl = λ fd w. (some 2, w);
  setfl = λ fd flags w. (true, w);
  nonblocking = λ flags. flags + 2048;
  getaddrinfo = λ host port w. (some ((1 ∷ []) ∷ (2 ∷ []) ∷ []), w);
  socket = λ a w. (some w.0, (w.0 + 1, w.0 ∷ w.1));
  reuse = λ fd w. w;
  bind = λ fd a w. (fd == 4, w);
  listen = λ fd w. (true, w);
  close = λ fd w. (w.0, rest_of fd w.1);
  accept = λ fd w. (some (w.0, 127 ∷ []), (w.0 + 1, w.0 ∷ w.1));
  ntop = λ a. none;
  getpeername = λ fd w. none;
  sockport = λ fd w. none;
  inet_socket = λ w. (some 6, w);
  gethostbyname = λ host w. (some (127 ∷ []), w);
  connect = λ fd a port w. (true, w);
  rand = λ w. (25, w);
  epoll_create = λ w. (some 9, w);
  atoi = λ text. 9090;
  decimal = λ n. [];
}

book : Ledger system
unfolding rest_of
book = record {
  descriptors = λ w. w.1;
  socket_opens = λ a w. refl;
  accept_opens = λ fd w. refl;
  close_closes = λ fd fds w e. rw e refl;
  reuse_keeps = λ fd w. refl;
  bind_keeps = λ fd a w. refl;
  getaddrinfo_keeps = λ host port w. refl;
  getfl_keeps = λ fd w. refl;
  setfl_keeps = λ fd flags w. refl;
}

descriptors_lem_example :
    (book.descriptors (create_and_bind system [] [] (3, 0 ∷ [])).1
      ≡ opened (create_and_bind system [] [] (3, 0 ∷ [])).0 (book.descriptors (3, 0 ∷ [])))
    × (book.descriptors (accept_connection system 4 (3, 0 ∷ [])).1
        ≡ opened (accept_connection system 4 (3, 0 ∷ [])).0 (book.descriptors (3, 0 ∷ [])))
descriptors_lem_example = descriptors_lem system book [] [] 4 (3, 0 ∷ [])
