-- ===== src/Broker.antt =====
-- The package `broker`: messages, their store on the filesystem, and the MQTT producer.
pub mod Message
pub mod Store
pub mod Mqtt
