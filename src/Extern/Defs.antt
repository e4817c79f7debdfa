-- ===== src/Extern/Defs.antt =====
-- The record of what the program calls outside the repository.
use amnesia_bgp.Base.{ℕ, Option, List}
use amnesia_bgp.Net.{SocketAddr}

pub record Extern : Type 1 where
  -- `octets::Octets`. `none` stands for `BufferTooShortError`.
  pub Octets : Type 0
  pub with_slice : List ℕ → Octets
  pub cap : Octets → ℕ
  pub off : Octets → ℕ
  pub buf : Octets → List ℕ
  pub to_vec : Octets → List ℕ
  pub get_u8 : Octets → Option (ℕ × Octets)
  pub get_u16 : Octets → Option (ℕ × Octets)
  pub get_u32 : Octets → Option (ℕ × Octets)
  pub skip : Octets → ℕ → Option Octets
  -- The sub-buffer of the next bytes, and the buffer behind it.
  pub get_bytes : Octets → ℕ → Option (Octets × Octets)
  pub get_bytes_with_u16_length : Octets → Option (Octets × Octets)
  -- `bytes::BytesMut`. `none` stands for the panic of `Buf::advance`.
  pub BytesMut : Type 0
  pub with_capacity : ℕ → BytesMut
  pub as_slice : BytesMut → List ℕ
  pub reserve : BytesMut → ℕ → BytesMut
  pub advance : BytesMut → ℕ → Option BytesMut
  -- `tokio::net::TcpStream`, and what `read_buf` does to the buffer when bytes arrive.
  pub TcpStream : Type 0
  pub append_read : BytesMut → List ℕ → BytesMut
  -- `TcpStream::peer_addr`. `none` stands for an `io::Error`.
  pub peer_addr : TcpStream → Option SocketAddr
