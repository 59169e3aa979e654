-- ===== src/UdpFeed/Sessions.antt =====
-- A session of the publisher: `init`, some books, `close`.
use dpdk_cex_source.Base.{
  ℕ, ◌+◌, ◌≡◌, Bool, true, false, if◌then◌else◌, ◌&&◌, List, [], ◌∷◌, none, some, length, arith,
}
use dpdk_cex_source.AeroTypes.{ExchangeId}
use dpdk_cex_source.UdpFeed.{ParsedOrderBook, UdpPublisher, Os, init, close, publish}

module _ {Q : Type 0} (bits : Q → ℕ) where
  -- Books with their exchange and the time of the call.
  unfoldable pub publish_all :
      Os → UdpPublisher → List (ParsedOrderBook Q × ExchangeId × ℕ) → UdpPublisher
  publish_all os u [] = u
  publish_all os u ((book, exchange_id, now_ns) ∷ books) =
      publish_all os (publish bits os u book exchange_id now_ns) books

  abbrev is_open : UdpPublisher → Bool
  is_open u = elim u.socket_fd [ none ↦ false | some fd ↦ true ]

  abbrev sends : Os → UdpPublisher → Bool
  sends os u = is_open u && os.inet_pton u.target_address

  publish-keeps :
      (os : Os) (u : UdpPublisher) (book : ParsedOrderBook Q) (e : ExchangeId) (now : ℕ)
      → let v = publish bits os u book e now in
        (v.socket_fd ≡ u.socket_fd)
        × (v.open_fds ≡ u.open_fds)
        × (v.target_address ≡ u.target_address)
        × (length v.sent ≡ length u.sent + (if sends os u then 1 else 0))
  unfolding publish
  publish-keeps os u book e now = ground arith

  publish_all-keeps :
      (os : Os) (u : UdpPublisher) (books : List (ParsedOrderBook Q × ExchangeId × ℕ))
      → let v = publish_all os u books in
        (v.socket_fd ≡ u.socket_fd)
        × (v.open_fds ≡ u.open_fds)
        × (length v.sent ≡ length u.sent + (if sends os u then length books else 0))
  unfolding publish_all
  publish_all-keeps os u [] = ground arith
  publish_all-keeps os u ((book, e, now) ∷ books) = ground (
    arith,
    publish-keeps os u book e now,
    publish_all-keeps os (publish bits os u book e now) books,
  )

  -- A session on a publisher without a socket leaves no descriptor behind, whichever of the calls of
  -- the operating system fail, and sends one datagram for each book if `init` succeeded and the
  -- address can be read, and none otherwise.
  pub close-init :
      (os : Os) (u : UdpPublisher) (address : List ℕ) (port : ℕ)
      (books : List (ParsedOrderBook Q × ExchangeId × ℕ))
      → u.socket_fd ≡ none
      → let (ok, opened) = init os u address port in
        let v = publish_all os opened books in
        ((close v).socket_fd ≡ none)
        × ((close v).open_fds ≡ u.open_fds)
        × (length v.sent ≡ length u.sent + (if ok && os.inet_pton address then length books else 0))
  unfolding init close
  close-init os u address port books h =
      ground (arith, publish_all-keeps os (init os u address port).1 books)
