-- ===== src/Image.antt =====
-- internal/image: images pulled, unpacked and cached.
pub mod Unpack
pub mod Pull
pub mod Cache
pub mod Binaries
